-- ===== src/Users/Picks.antt =====
-- The strategies that a user has picked: `user_strategy_picks` in src/api/users.py. A set of names is
-- the list of its rows.
use forex_ea.Prelude.{
  ℕ, Bool, true, false, not, ◌&&◌, ◌||◌, Option, none, some, List, [], ◌∷◌, ◌++◌, String, foldl,
  select, if◌then◌else◌,
}
use forex_ea.Table.{Table, lookup, ◌==◌, string_eq}
use forex_ea.Users.{UserStore, UserRow, Pick, PickKind, is_none}

abbrev pub same_kind : PickKind → PickKind → Bool
same_kind PickKind.signal PickKind.signal = true
same_kind PickKind.execute PickKind.execute = true
same_kind _ _ = false

abbrev pub same_pick : Pick → Pick → Bool
same_pick p q = p.username == q.username && p.strategy == q.strategy && same_kind p.kind q.kind

abbrev pub is_picked : Pick → List Pick → Bool
is_picked p [] = false
is_picked p (q ∷ qs) = same_pick p q || is_picked p qs

-- `INSERT OR IGNORE`
abbrev pub add_pick : List Pick → Pick → List Pick
add_pick picks p = if is_picked p picks then picks else picks ++ p ∷ []

abbrev pub add_kind : String → PickKind → List String → List Pick → List Pick
add_kind username kind names picks =
    foldl
      (λ ps (name : String).
        add_pick ps (record { username = username; strategy = name; kind = kind }))
      picks names

unfoldable pub set_user_picks : String → List String → List String → UserStore → UserStore
set_user_picks username signal_names execute_names s =
    let kept = select (λ (p : Pick). not (p.username == username)) s.picks in
    record s {
      picks =
          add_kind username PickKind.execute execute_names
            (add_kind username PickKind.signal signal_names kept);
    }

abbrev pub names_of : String → PickKind → List Pick → List String
names_of username kind [] = []
names_of username kind (p ∷ ps) =
    if p.username == username && same_kind p.kind kind
    then p.strategy ∷ names_of username kind ps
    else names_of username kind ps

unfoldable pub get_user_picks : String → PickKind → UserStore → List String
get_user_picks username kind s = names_of username kind s.picks

-- A row of the join with `auth_users`, where the user has set a password.
abbrev joined : String → Option UserRow → List (String × Option ℕ) → List (String × Option ℕ)
joined username none rows = rows
joined username (some row) rows =
    if is_none row.password_hash then rows else (username, row.telegram_chat_id) ∷ rows

abbrev pickers : String → PickKind → Table String UserRow → List Pick → List (String × Option ℕ)
pickers strategy kind users [] = []
pickers strategy kind users (p ∷ ps) =
    joined p.username
      (if p.strategy == strategy && same_kind p.kind kind then lookup p.username users else none)
      (pickers strategy kind users ps)

pub list_users_who_picked : String → PickKind → UserStore → List (String × Option ℕ)
list_users_who_picked strategy kind s = pickers strategy kind s.users s.picks
