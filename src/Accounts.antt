-- ===== src/Accounts.antt =====
-- The endpoints of src/api/server.py that read and write the accounts, and the log-in of
-- src/api/auth.py. What an endpoint answers is a reply or the status code of an `HTTPException`. The
-- passwords' hash, its check, a decoded token and the fate of each mail or message are arguments; the
-- secret that signs is set. The dependencies `require_admin` and `require_2fa` stand before the calls.

pub mod Login
pub mod Endpoints
pub mod Setup
pub mod Approved
use forex_ea.Prelude.{
  ℕ, Bool, true, false, not, ◌&&◌, ◌||◌, Option, none, some, List, [], ◌∷◌, String, foldl, length,
  leb, if◌then◌else◌, ◌≡◌, refl, ◌⊎◌, inl, inr,
}
use forex_ea.Result.{Result, ok, err, Raised}
use forex_ea.Table.{◌==◌, string_eq}
use forex_ea.Users.{
  UserStore, UserRow, get_hash, exists, mark_token_used, token_was_used, set_password,
}
use forex_ea.Users.Keys.{ensure_ea_api_key}
use forex_ea.Users.Calls.{or_same_with}

pub data Response {ℓ} (A : Type ℓ) : Type ℓ where
  reply : A → Response A
  http_error : ℕ → Response A

-- What `decode_setup_token` gives: the claims, or one of the two exceptions of the JWT library.
pub record SetupClaims : Type 0 where
  pub ad_id : String
  pub email : String
  pub jti : String

pub data Decoded : Type 0 where
  claims : SetupClaims → Decoded
  expired_token invalid_token : Decoded

abbrev pub first {ℓ} : {A B : Type ℓ} → A × B → A
first p = p.0

-- `ensure_ea_api_key`, whose exceptions are caught
abbrev pub ensured : (String → String) → String → String → UserStore → UserStore
ensured hash_ea_key username new_key s =
    or_same_with (ensure_ea_api_key hash_ea_key username new_key s) s

pub preview_setup : Decoded → UserStore → Response SetupClaims
unfolding token_was_used get_hash exists
preview_setup expired_token s = http_error 400
preview_setup invalid_token s = http_error 400
preview_setup (claims c) s =
    if token_was_used c.jti s then http_error 409 else elim (get_hash c.ad_id s) [
      | some hash ↦ http_error 409
      | none ↦ if exists c.ad_id s then reply c else http_error 404
    ]

module _ (hash_ea_key : String → String) where
  -- After the token is burned.
  abbrev pub activate :
      SetupClaims → Result String → String → Option String → UserStore → UserStore × Response Bool
  activate c pw_hash new_key (some hash) s = (s, http_error 409)
  activate c (err raised) new_key none s = (s, http_error 400)
  activate c (ok hash) new_key none s =
      (ensured hash_ea_key c.ad_id new_key (first (set_password c.ad_id hash s)), reply true)

  abbrev pub redeem :
      SetupClaims → Result String → String → UserStore × Bool → UserStore × Response Bool
  redeem c pw_hash new_key (s, false) = (s, http_error 409)
  redeem c pw_hash new_key (s, true) = activate c pw_hash new_key (get_hash c.ad_id s) s

  unfoldable pub complete_setup :
      Decoded → Result String → String → UserStore → UserStore × Response Bool
  unfolding mark_token_used get_hash set_password
  complete_setup expired_token pw_hash new_key s = (s, http_error 400)
  complete_setup invalid_token pw_hash new_key s = (s, http_error 400)
  complete_setup (claims c) pw_hash new_key s = redeem c pw_hash new_key (mark_token_used c.jti s)

pub Response-cases {ℓ} :
    {A : Type ℓ} (r : Response A) → ((code : ℕ) × (r ≡ http_error code)) ⊎ ((a : A) × (r ≡ reply a))
Response-cases (http_error code) = inl (code, refl)
Response-cases (reply a) = inr (a, refl)
