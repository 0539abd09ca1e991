-- ===== src/Users.antt =====
-- The accounts of the control API: `UserStore` of src/api/users.py with src/api/ad_id.py. The table
-- `auth_users` is keyed by the AD-ID; its times are instants, which `isoformat` writes and
-- `fromisoformat` reads back, so that the branches for malformed texts are not reached, and the
-- column `created_at`, which is only shown, is left out. A failed call leaves the store as it was,
-- since its transaction is rolled back. The pool is in the order of insertion, the order of
-- `generated_at`.
pub mod Keys
pub mod Picks
pub mod Calls
pub mod Steps
pub mod Members
pub mod Admin
pub mod Picked
pub mod Fresh
use forex_ea.Prelude.{
  ℕ, zero, suc, ◌+◌, ◌-◌, ◌*◌, Bool, true, false, not, ◌&&◌, ◌||◌, Option, none, some, List, [],
  ◌∷◌, ◌++◌, String, map, foldl, select, ltb, leb, nat_beq, if◌then◌else◌, length, is_empty,
}
use forex_ea.Result.{Result, ok, err, Raised, ◌>>◌, raise_if}
use forex_ea.Table.{Table, lookup, upsert, delete, modify, ◌==◌, string_eq}
use forex_ea.Text.{codes}

abbrev pub admin_ad_id : String
admin_ad_id = "Admi8X"

-- The roles "admin" and "user".
pub data UserRole : Type 0 where
  admin user : UserRole

abbrev pub is_admin : UserRole → Bool
is_admin UserRole.admin = true
is_admin UserRole.user = false

-- A row of `auth_users` without its key.
pub record UserRow : Type 0 where
  pub password_hash : Option String
  pub role : UserRole
  pub email : Option String
  pub expires_at : Option ℕ
  pub expired_notified_at : Option ℕ
  pub phone_number : Option String
  pub display_name : Option String
  pub ea_api_key : Option String
  pub ea_api_key_hash : Option String
  pub telegram_chat_id : Option ℕ

-- The kinds "signal" and "execute".
pub data PickKind : Type 0 where
  signal execute : PickKind

pub record Pick : Type 0 where
  pub username : String
  pub strategy : String
  pub kind : PickKind

pub record UserStore : Type 0 where
  pub users : Table String UserRow
  pub pool : List String
  pub used_tokens : List String
  pub picks : List Pick

-- `x in rows`
abbrev pub is_in : String → List String → Bool
is_in x [] = false
is_in x (y ∷ ys) = y == x || is_in x ys

-- The truth of a text column: neither NULL nor "".
abbrev pub is_set : Option String → Bool
is_set none = false
is_set (some text) = not (text == "")

abbrev pub is_none {ℓ} : {A : Type ℓ} → Option A → Bool
is_none none = true
is_none (some a) = false

abbrev pub hour : ℕ
hour = 3_600_000_000

-- `SUBSCRIPTION_DURATIONS`, in microseconds
abbrev pub subscription_durations : Table String ℕ
subscription_durations =
    ("5h", 5 * hour)
    ∷ ("1w", 7 * 24 * hour)
    ∷ ("2w", 14 * 24 * hour)
    ∷ ("1m", 30 * 24 * hour)
    ∷ ("2m", 60 * 24 * hour)
    ∷ ("3m", 90 * 24 * hour)
    ∷ []

abbrev pub or_value_error : Option ℕ → Result ℕ
or_value_error none = err Raised.value_error
or_value_error (some td) = ok td

unfoldable pub parse_duration : String → Result ℕ
parse_duration code = or_value_error (lookup code subscription_durations)

abbrev pub is_hex_upper : ℕ → Bool
is_hex_upper c = (leb b'0' c && leb c b'9') || (leb b'A' c && leb c b'F')

-- `$` also matches before a final line feed.
abbrev pub ends_here : List ℕ → Bool
ends_here [] = true
ends_here (c ∷ cs) = nat_beq c 10 && is_empty cs

abbrev pub hex_digits : ℕ → List ℕ → Bool
hex_digits zero cs = ends_here cs
hex_digits (suc n) [] = false
hex_digits (suc n) (c ∷ cs) = is_hex_upper c && hex_digits n cs

abbrev pub matches_ad_id : List ℕ → Bool
matches_ad_id (a ∷ d ∷ dash ∷ rest) =
    nat_beq a b'A' && nat_beq d b'D' && nat_beq dash b'-' && hex_digits 8 rest
matches_ad_id _ = false

unfoldable pub is_user_ad_id : String → Bool
is_user_ad_id ad_id = matches_ad_id (codes ad_id)

-- The pool

-- The rounds of the loop that adds the IDs, on the candidates that `new_ad_id` draws; `none` when
-- these run out.
unfoldable pub refill : ℕ → List String → UserStore → Option UserStore
refill zero drawn s = some s
refill (suc missing) [] s = none
refill (suc missing) (candidate ∷ drawn) s =
    elim (is_in candidate s.pool || not (is_none (lookup candidate s.users))) [
      | true ↦ refill (suc missing) drawn s
      | false ↦ refill missing drawn (record s { pool = s.pool ++ candidate ∷ [] })
    ]

unfoldable pub pool_size : UserStore → ℕ
pool_size s = length s.pool

unfoldable pub refill_pool : ℕ → List String → UserStore → Option UserStore
unfolding refill pool_size
refill_pool target drawn s = refill (target - pool_size s) drawn s

unfoldable pub unclaimed_pool : UserStore → List String
unclaimed_pool s = s.pool

abbrev pub without : String → List String → List String
without id ids = select (λ (x : String). not (x == id)) ids

unfoldable pub claim_ad_id : String → UserStore → UserStore × Bool
claim_ad_id ad_id s = (record s { pool = without ad_id s.pool }, is_in ad_id s.pool)

-- The accounts

abbrev pub or_old : Option String → Option String → Option String
or_old none old = old
or_old (some new) old = some new

abbrev pub fresh_row : Option String → UserRole → UserRow
fresh_row password_hash role = record {
  password_hash = password_hash;
  role = role;
  email = none;
  expires_at = none;
  expired_notified_at = none;
  phone_number = none;
  display_name = none;
  ea_api_key = none;
  ea_api_key_hash = none;
  telegram_chat_id = none;
}

abbrev pub later : ℕ → Option ℕ → Option ℕ
later now none = none
later now (some duration) = some (now + duration)

-- What `assign` is given besides the ID.
pub record Grant : Type 0 where
  pub email : String
  pub duration : Option ℕ
  pub phone_number : Option String
  pub display_name : Option String

abbrev pub assigned_row : ℕ → Grant → UserRow
assigned_row now g = record (fresh_row none UserRole.user) {
  email = some g.email;
  expires_at = later now g.duration;
  phone_number = g.phone_number;
  display_name = g.display_name;
}

abbrev pub reassigned_row : ℕ → Grant → UserRow → UserRow
reassigned_row now g row = record row {
  email = some g.email;
  expires_at = later now g.duration;
  expired_notified_at = none;
  phone_number = or_old g.phone_number row.phone_number;
  display_name = or_old g.display_name row.display_name;
}

abbrev pub place_row :
    ℕ → String → Grant → Option UserRow → UserStore → Result (UserStore × Option ℕ)
place_row now ad_id g none s =
    ok (record s { users = upsert ad_id (assigned_row now g) s.users }, later now g.duration)
place_row now ad_id g (some row) s =
    if is_none row.password_hash
    then ok (record s { users = modify ad_id (reassigned_row now g) s.users }, later now g.duration)
    else err Raised.value_error

unfoldable pub assign : ℕ → String → Grant → UserStore → Result (UserStore × Option ℕ)
assign now ad_id g s =
    raise_if (ad_id == admin_ad_id) Raised.value_error
    >> raise_if (not (is_in ad_id s.pool)) Raised.value_error
    >> place_row now ad_id g (lookup ad_id s.users) (record s { pool = without ad_id s.pool })

-- `anchor`
abbrev pub anchor_of : ℕ → Option ℕ → ℕ
anchor_of now none = now
anchor_of now (some current) = if ltb current now then now else current

abbrev pub extended_row : ℕ → ℕ → UserRow → UserRow
extended_row now duration row = record row {
  expires_at = some (anchor_of now row.expires_at + duration);
  expired_notified_at = none;
}

abbrev pub extend_row : ℕ → ℕ → String → Option UserRow → UserStore → Result (UserStore × ℕ)
extend_row now duration username none s = err Raised.key_error
extend_row now duration username (some row) s = ok (
  record s { users = modify username (extended_row now duration) s.users },
  anchor_of now row.expires_at + duration,
)

unfoldable pub extend : ℕ → String → ℕ → UserStore → Result (UserStore × ℕ)
extend now username duration s =
    raise_if (username == admin_ad_id) Raised.value_error
    >> extend_row now duration username (lookup username s.users) s

abbrev pub expires_at_of : Option UserRow → Option ℕ
expires_at_of none = none
expires_at_of (some row) = row.expires_at

unfoldable pub get_expires_at : String → UserStore → Option ℕ
get_expires_at username s = expires_at_of (lookup username s.users)

abbrev pub is_past : ℕ → Option ℕ → Bool
is_past now none = false
is_past now (some expires) = ltb expires now

unfoldable pub is_expired : ℕ → String → UserStore → Bool
unfolding get_expires_at
is_expired now username s =
    if username == admin_ad_id then false else is_past now (get_expires_at username s)

abbrev pub is_unnotified : ℕ → String × UserRow → Bool
is_unnotified now r =
    is_past now r.1.expires_at && is_none r.1.expired_notified_at && not (r.0 == admin_ad_id)

unfoldable pub list_expired_unnotified : ℕ → UserStore → Table String UserRow
list_expired_unnotified now s = select (is_unnotified now) s.users

unfoldable pub mark_notified : ℕ → String → UserStore → UserStore
mark_notified now username s = record s {
  users = modify username (λ row. record row { expired_notified_at = some now }) s.users;
}

abbrev pub count_admins : Table String UserRow → ℕ
count_admins [] = 0
count_admins ((name, row) ∷ t) = if is_admin row.role then suc (count_admins t) else count_admins t

unfoldable pub admin_count : UserStore → ℕ
admin_count s = count_admins s.users

-- An INSERT, which the primary key refuses where the name is taken.
abbrev pub insert_user : String → UserRow → UserStore → Result UserStore
insert_user username row s =
    raise_if (not (is_none (lookup username s.users))) Raised.integrity_error
    >> ok (record s { users = upsert username row s.users })

unfoldable pub create_admin : String → UserStore → Result UserStore
unfolding admin_count
create_admin password_hash s =
    raise_if (leb 1 (admin_count s)) Raised.duplicate_admin_error
    >> insert_user admin_ad_id (fresh_row (some password_hash) UserRole.admin) s

unfoldable pub create : String → String → UserRole → UserStore → Result UserStore
unfolding admin_count
create username password_hash role s =
    raise_if (is_admin role && not (username == admin_ad_id)) Raised.value_error
    >> raise_if (is_admin role && leb 1 (admin_count s)) Raised.duplicate_admin_error
    >> insert_user username (fresh_row (some password_hash) role) s

unfoldable pub exists : String → UserStore → Bool
exists username s = not (is_none (lookup username s.users))

-- `cur.rowcount > 0`
unfoldable pub set_password : String → String → UserStore → UserStore × Bool
unfolding exists
set_password username new_hash s = (
  record s {
    users = modify username (λ row. record row { password_hash = some new_hash }) s.users;
  },
  exists username s,
)

unfoldable pub set_telegram_chat_id : String → ℕ → UserStore → UserStore
set_telegram_chat_id username chat_id s = record s {
  users = modify username (λ row. record row { telegram_chat_id = some chat_id }) s.users;
}

abbrev pub chat_onto : String → Option ℕ → List (String × ℕ) → List (String × ℕ)
chat_onto username none chats = chats
chat_onto username (some chat) chats = (username, chat) ∷ chats

abbrev pub is_operator : ℕ → String × UserRow → Bool
is_operator now r =
    not (r.0 == admin_ad_id) && not (is_none r.1.password_hash) && not (is_past now r.1.expires_at)

abbrev pub active_chats : ℕ → Table String UserRow → List (String × ℕ)
active_chats now [] = []
active_chats now ((name, row) ∷ t) =
    chat_onto name (if is_operator now (name, row) then row.telegram_chat_id else none)
      (active_chats now t)

unfoldable pub list_active_telegram_chats : ℕ → UserStore → List (String × ℕ)
list_active_telegram_chats now s = active_chats now s.users

abbrev pub known_hash : Option UserRow → Option String
known_hash none = none
known_hash (some row) = if is_set row.password_hash then row.password_hash else none

unfoldable pub get_hash : String → UserStore → Option String
get_hash username s = known_hash (lookup username s.users)

unfoldable pub get_role : String → UserStore → Option UserRole
get_role username s = elim (lookup username s.users) [ none ↦ none | some row ↦ some row.role ]

unfoldable pub get_email : String → UserStore → Option String
get_email username s = elim (lookup username s.users) [ none ↦ none | some row ↦ row.email ]

unfoldable pub delete_user : String → UserStore → Result (UserStore × Bool)
unfolding exists
delete_user username s =
    raise_if (username == admin_ad_id) Raised.last_admin_error
    >> ok (record s { users = delete username s.users }, exists username s)

-- The tokens of the setup links

unfoldable pub mark_token_used : String → UserStore → UserStore × Bool
mark_token_used jti s =
    if is_in jti s.used_tokens
    then (s, false)
    else (record s { used_tokens = s.used_tokens ++ jti ∷ [] }, true)

unfoldable pub token_was_used : String → UserStore → Bool
token_was_used jti s = is_in jti s.used_tokens
