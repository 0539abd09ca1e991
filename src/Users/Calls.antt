-- ===== src/Users/Calls.antt =====
-- The calls of `UserStore` in src/api/users.py that write, one after the other; a call that raises
-- leaves the store as it was.
use forex_ea.Prelude.{ℕ, Option, none, some, List, String, foldl}
use forex_ea.Result.{Result, ok, err}
use forex_ea.Users.{
  UserStore, UserRole, Grant, refill_pool, claim_ad_id, assign, extend, mark_notified, create_admin,
  create, set_password, set_telegram_chat_id, delete_user, mark_token_used,
}
use forex_ea.Users.Keys.{ensure_ea_api_key, rotate_ea_api_key, get_username_by_ea_key}
use forex_ea.Users.Picks.{set_user_picks}

pub data UserCall : Type 0 where
  refilled : ℕ → List String → UserCall
  claimed : String → UserCall
  assigned : ℕ → String → Grant → UserCall
  extended : ℕ → String → ℕ → UserCall
  notified : ℕ → String → UserCall
  seeded : String → UserCall
  created : String → String → UserRole → UserCall
  password_set : String → String → UserCall
  chat_set : String → ℕ → UserCall
  picked : String → List String → List String → UserCall
  key_ensured : String → String → UserCall
  key_rotated : String → String → UserCall
  key_read : String → UserCall
  deleted : String → UserCall
  token_marked : String → UserCall

abbrev pub or_unchanged : Option UserStore → UserStore → UserStore
or_unchanged none s = s
or_unchanged (some s') s = s'

abbrev pub or_same : Result UserStore → UserStore → UserStore
or_same (err raised) s = s
or_same (ok s') s = s'

abbrev pub or_same_with : {A : Type 0} → Result (UserStore × A) → UserStore → UserStore
or_same_with (err raised) s = s
or_same_with (ok (s', a)) s = s'

module _ (hash_ea_key : String → String) where
  unfoldable pub perform : UserStore → UserCall → UserStore
  perform s (refilled target drawn) = or_unchanged (refill_pool target drawn s) s
  perform s (claimed ad_id) = (claim_ad_id ad_id s).0
  perform s (assigned now ad_id g) = or_same_with (assign now ad_id g s) s
  perform s (extended now username duration) = or_same_with (extend now username duration s) s
  perform s (notified now username) = mark_notified now username s
  perform s (seeded password_hash) = or_same (create_admin password_hash s) s
  perform s (created username password_hash role) = or_same (create username password_hash role s) s
  perform s (password_set username new_hash) = (set_password username new_hash s).0
  perform s (chat_set username chat_id) = set_telegram_chat_id username chat_id s
  perform s (picked username signals executes) = set_user_picks username signals executes s
  perform s (key_ensured username new_key) =
      or_same_with (ensure_ea_api_key hash_ea_key username new_key s) s
  perform s (key_rotated username new_key) =
      or_same_with (rotate_ea_api_key hash_ea_key username new_key s) s
  perform s (key_read key) = (get_username_by_ea_key hash_ea_key key s).0
  perform s (deleted username) = or_same_with (delete_user username s) s
  perform s (token_marked jti) = (mark_token_used jti s).0

  -- The store after the calls.
  abbrev pub after_calls : UserStore → List UserCall → UserStore
  after_calls s calls = foldl perform s calls
