-- ===== src/Accounts/Login.antt =====
-- The log-in of src/api/server.py with `authenticate` and the rate limiter of src/api/auth.py, and the
-- gate that each request of a user or of an EA passes. Whether a password fits a hash is an argument;
-- an instant is a number of microseconds.
pub mod Limit
use forex_ea.Prelude.{
  ℕ, ◌+◌, ◌*◌, Bool, true, false, not, ◌&&◌, Option, none, some, List, [], ◌∷◌, ◌++◌, String,
  length, ltb, if◌then◌else◌,
}
use forex_ea.Table.{Table, lookup, upsert, delete, ◌==◌, string_eq}
use forex_ea.Users.{UserStore, UserRole, get_hash, get_role, is_expired}
use forex_ea.Users.Keys.{get_username_by_ea_key}
use forex_ea.Accounts.{Response, reply, http_error}

abbrev pub max_attempts : ℕ
max_attempts = 5

abbrev pub window : ℕ
window = 15 * 60 * 1_000_000

-- The attempts of each client, the oldest first.
abbrev pub Hits : Type 0
Hits = Table String (List ℕ)

abbrev pub hits_of : Option (List ℕ) → List ℕ
hits_of none = []
hits_of (some q) = q

-- `while q and q[0] < now - window_s: q.popleft()`
abbrev pub recent : ℕ → List ℕ → List ℕ
recent now [] = []
recent now (hit ∷ q) = if ltb (hit + window) now then recent now q else hit ∷ q

unfoldable pub check : ℕ → String → Hits → Hits × Bool
check now key hits =
    let q = recent now (hits_of (lookup key hits)) in
    (upsert key q hits, ltb (length q) max_attempts)

unfoldable pub record_hit : ℕ → String → Hits → Hits
record_hit now key hits = upsert key (hits_of (lookup key hits) ++ now ∷ []) hits

unfoldable pub reset : String → Hits → Hits
reset key hits = delete key hits

abbrev pub or_admin : Option UserRole → UserRole
or_admin none = UserRole.admin
or_admin (some role) = role

module _ (verify_password : String → String → Bool) where
  abbrev verified : String → String → Option String → UserStore → Option UserRole
  verified username password none s = none
  verified username password (some hash) s =
      if verify_password password hash then some (or_admin (get_role username s)) else none

  unfoldable pub authenticate : String → String → UserStore → Option UserRole
  unfolding get_hash get_role
  authenticate username password s = verified username password (get_hash username s) s

  abbrev pub after_check : ℕ → String → Hits × Bool → Option UserRole → Hits × Response UserRole
  after_check now ip (hits, false) role = (hits, http_error 429)
  after_check now ip (hits, true) none = (record_hit now ip hits, http_error 401)
  after_check now ip (hits, true) (some role) = (reset ip hits, reply role)

  -- The token that a reply carries is made of the name and the role.
  unfoldable pub login : ℕ → String → String → String → UserStore → Hits → Hits × Response UserRole
  unfolding authenticate check record_hit reset
  login now ip username password s hits =
      after_check now ip (check now ip hits) (authenticate username password s)

-- `current_user`, for the name that a valid token carries
unfoldable pub current_user : ℕ → String → UserStore → Response String
unfolding is_expired
current_user now username s =
    if not (username == "") && is_expired now username s then http_error 401 else reply username

module _ (hash_ea_key : String → String) where
  abbrev gated : ℕ → UserStore × Option String → UserStore × Response String
  gated now (s, none) = (s, http_error 401)
  gated now (s, some username) =
      if is_expired now username s then (s, http_error 403) else (s, reply username)

  -- `ea_caller`, for the key of a bearer header; a header without one is none
  unfoldable pub ea_caller : ℕ → Option String → UserStore → UserStore × Response String
  unfolding get_username_by_ea_key is_expired
  ea_caller now none s = (s, http_error 401)
  ea_caller now (some key) s = gated now (get_username_by_ea_key hash_ea_key key s)
