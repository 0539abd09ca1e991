-- ===== src/Users/Keys.antt =====
-- The API keys of the copy-trading EA in src/api/users.py. The keyed hash of a key and the random key
-- are arguments.
use forex_ea.Prelude.{Bool, false, ◌||◌, Option, none, some, [], ◌∷◌, String, if◌then◌else◌}
use forex_ea.Result.{Result, ok, err, Raised}
use forex_ea.Table.{Table, lookup, modify, ◌==◌, string_eq}
use forex_ea.Text.{codes, starts_with}
use forex_ea.Users.{UserStore, UserRow, is_set, exists}

-- Equality with a column, which no NULL has.
abbrev pub holds_text : String → Option String → Bool
holds_text text none = false
holds_text text (some other) = other == text

-- The name of the first row that meets a condition.
abbrev pub name_where : (UserRow → Bool) → Table String UserRow → Option String
name_where p [] = none
name_where p ((name, row) ∷ t) = if p row then some name else name_where p t

module _ (hash_ea_key : String → String) where
  abbrev pub keyed_row : String → UserRow → UserRow
  keyed_row plaintext row = record row {
    ea_api_key_hash = some (hash_ea_key plaintext);
    ea_api_key = none;
  }

  unfoldable pub store_ea_key : String → String → UserStore → UserStore
  store_ea_key username plaintext s = record s {
    users = modify username (keyed_row plaintext) s.users;
  }

  abbrev pub text_of : Option String → String
  text_of none = ""
  text_of (some key) = key

  abbrev pub ensure_row :
      String → String → Option UserRow → UserStore → Result (UserStore × Option String)
  ensure_row username new_key none s = err Raised.key_error
  ensure_row username new_key (some row) s =
      let legacy = text_of row.ea_api_key in
      if is_set row.ea_api_key
      then ok (store_ea_key username legacy s, some legacy)
      else if is_set row.ea_api_key_hash
      then ok (s, none)
      else ok (store_ea_key username new_key s, some new_key)

  unfoldable pub ensure_ea_api_key :
      String → String → UserStore → Result (UserStore × Option String)
  unfolding store_ea_key
  ensure_ea_api_key username new_key s = ensure_row username new_key (lookup username s.users) s

  unfoldable pub rotate_ea_api_key : String → String → UserStore → Result (UserStore × String)
  unfolding store_ea_key exists
  rotate_ea_api_key username new_key s =
      if exists username s
      then ok (store_ea_key username new_key s, new_key)
      else err Raised.key_error

  abbrev pub migrated : String → Option String → UserStore → UserStore × Option String
  migrated key none s = (s, none)
  migrated key (some username) s = (store_ea_key username key s, some username)

  abbrev pub by_hash : String → Option String → UserStore → UserStore × Option String
  by_hash key (some username) s = (s, some username)
  by_hash key none s = migrated key (name_where (λ row. holds_text key row.ea_api_key) s.users) s

  unfoldable pub get_username_by_ea_key : String → UserStore → UserStore × Option String
  unfolding store_ea_key
  get_username_by_ea_key key s =
      if starts_with (codes key) (codes "ea_")
      then by_hash key
          (name_where (λ row. holds_text (hash_ea_key key) row.ea_api_key_hash) s.users) s
      else (s, none)

abbrev pub has_key : Option UserRow → Bool
has_key none = false
has_key (some row) = is_set row.ea_api_key || is_set row.ea_api_key_hash

unfoldable pub has_ea_api_key : String → UserStore → Bool
has_ea_api_key username s = has_key (lookup username s.users)
