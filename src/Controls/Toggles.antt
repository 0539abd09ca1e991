-- ===== src/Controls/Toggles.antt =====
-- The strategies' switches: `StrategyToggleStore` of src/execution/strategy_toggles.py. The column of a
-- mode holds any text, read as one of the two modes.
use forex_ea.Prelude.{
  ◌≡◌, ◌≢◌, refl, sym, ap, ◌∙◌, Bool, true, false, Option, none, some, List, [], ◌∷◌, String, not,
  if◌then◌else◌, ◌||◌,
}
use forex_ea.Result.{Result, ok, err, Raised}
use forex_ea.Table.{Table, lookup, upsert, ◌==◌, string_eq, lookup-upsert_self, lookup-upsert_ne}

pub record Toggle : Type 0 where
  pub enabled : Bool
  pub mode : String
  pub user_copyable : Bool

abbrev pub ToggleTable : Type 0
ToggleTable = Table String Toggle

abbrev pub mode_execute : String
mode_execute = "execute"

abbrev pub mode_signal : String
mode_signal = "signal"

pub sanitize_mode : String → String
sanitize_mode mode = if mode == mode_execute || mode == mode_signal then mode else mode_execute

abbrev fresh : Bool → Toggle
fresh enabled = record { enabled = enabled; mode = mode_execute; user_copyable = true }

-- `INSERT OR IGNORE`
abbrev insert_missing : String → Bool → ToggleTable → ToggleTable
insert_missing name enabled table = elim (lookup name table) [
  | none ↦ upsert name (fresh enabled) table
  | some row ↦ table
]

pub initialize_defaults : List (String × Bool) → ToggleTable → ToggleTable
initialize_defaults [] table = table
initialize_defaults ((name, enabled) ∷ rest) table =
    initialize_defaults rest (insert_missing name enabled table)

abbrev enabled_in : Option Toggle → Bool
enabled_in none = false
enabled_in (some row) = row.enabled

pub is_enabled : String → ToggleTable → Bool
is_enabled name table = enabled_in (lookup name table)

abbrev mode_in : Option Toggle → String
mode_in none = mode_execute
mode_in (some row) = sanitize_mode row.mode

pub get_mode : String → ToggleTable → String
get_mode name table = mode_in (lookup name table)

abbrev copyable_in : Option Toggle → Bool
copyable_in none = false
copyable_in (some row) = row.user_copyable

pub is_user_copyable : String → ToggleTable → Bool
is_user_copyable name table = copyable_in (lookup name table)

abbrev sanitized : Toggle → Toggle
sanitized row = record row { mode = sanitize_mode row.mode }

abbrev full_in : Option Toggle → Option Toggle
full_in none = none
full_in (some row) = some (sanitized row)

-- The dictionary of `get_full`, without the name.
pub get_full : String → ToggleTable → Option Toggle
get_full name table = full_in (lookup name table)

abbrev with_enabled : Bool → Option Toggle → Toggle
with_enabled enabled none = fresh enabled
with_enabled enabled (some row) = record row { enabled = enabled }

pub set : String → Bool → ToggleTable → ToggleTable
set name enabled table = upsert name (with_enabled enabled (lookup name table)) table

-- An update of the row of the name, or a KeyError.
abbrev on_row {ℓ} :
    {A : Type ℓ}
    → (Toggle → A × Toggle)
    → String
    → ToggleTable
    → Option Toggle
    → Result (A × ToggleTable)
on_row change name table none = err Raised.key_error
on_row change name table (some row) = let (a, row') = change row in ok (a, upsert name row' table)

pub set_mode : String → String → ToggleTable → Result (String × ToggleTable)
unfolding sanitize_mode
set_mode name mode table =
    let clean = sanitize_mode mode in
    on_row (λ row. (clean, record row { mode = clean })) name table (lookup name table)

pub set_user_copyable : String → Bool → ToggleTable → Result (Bool × ToggleTable)
set_user_copyable name value table =
    on_row (λ row. (value, record row { user_copyable = value })) name table (lookup name table)

pub toggle : String → ToggleTable → Result (Bool × ToggleTable)
toggle name table =
    on_row (λ row. (not row.enabled, record row { enabled = not row.enabled })) name table
      (lookup name table)

-- What a flip owes: a name without a row raises; one with a row is reported and left with its flag
-- inverted and the rest of its row as before, and every other name has the row that it had.
abbrev pub IsToggled : String → String → ToggleTable → Result (Bool × ToggleTable) → Type 0
IsToggled name other t (err e) = (e ≡ Raised.key_error) × (lookup name t ≡ none)
IsToggled name other t (ok (b, t')) =
    (row : Toggle) × (lookup name t ≡ some row)
    × (b ≡ not row.enabled)
    × (lookup name t' ≡ some (record row { enabled = b }))
    × (is_enabled name t' ≡ not (is_enabled name t))
    × (get_mode name t' ≡ get_mode name t)
    × (is_user_copyable name t' ≡ is_user_copyable name t)
    × (lookup other t' ≡ lookup other t)

on_row-IsToggled :
    (name other : String) (t : ToggleTable) (o : Option Toggle)
    → name ≢ other
    → lookup name t ≡ o
    → IsToggled name other t
        (on_row (λ row. (not row.enabled, record row { enabled = not row.enabled })) name t o)
unfolding is_enabled get_mode is_user_copyable
on_row-IsToggled name other t none ne e = (refl, e)
on_row-IsToggled name other t (some row) ne e =
    let row' : Toggle = record row { enabled = not row.enabled } in
    let now = lookup-upsert_self name row' t in
    let kept = lookup-upsert_ne name other row' t ne in
    (
      row,
      e,
      refl,
      now,
      ap enabled_in now ∙ sym (ap (λ o. not (enabled_in o)) e),
      ap mode_in now ∙ sym (ap mode_in e),
      ap copyable_in now ∙ sym (ap copyable_in e),
      kept,
    )

-- Flipping a strategy returns exactly where it has a row, and raises a KeyError where it has none: the
-- new enabled flag is returned and stored, the opposite of the old one; the mode and the copyable flag
-- stay as they were, and so does the row of every other strategy, or its absence.
pub toggle-IsToggled :
    (name other : String) (t : ToggleTable) → name ≢ other → IsToggled name other t (toggle name t)
unfolding toggle
toggle-IsToggled name other t ne = on_row-IsToggled name other t (lookup name t) ne refl
