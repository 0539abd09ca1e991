-- ===== src/Controls/KillSwitch.antt =====
-- The voice kill flag: `KillSwitchFlag` of src/voice/killswitch.py, a table of at most one row.
use forex_ea.Prelude.{
  ℕ, ◌≡◌, refl, Bool, true, false, Option, none, some, List, [], ◌∷◌, String, arith, if◌then◌else◌,
  foldl,
}

pub record KillSwitchState : Type 0 where
  pub active : Bool
  pub triggered_at : Option ℕ
  pub triggered_by : Option String
  pub phrase : Option String
  pub cleared_at : Option ℕ
  pub cleared_by : Option String

abbrev pub KillTable : Type 0
KillTable = Option KillSwitchState

abbrev pub never_set : KillSwitchState
never_set = record {
  active = false;
  triggered_at = none;
  triggered_by = none;
  phrase = none;
  cleared_at = none;
  cleared_by = none;
}

pub state : KillTable → KillSwitchState
state none = never_set
state (some row) = row

pub is_active : KillTable → Bool
is_active none = false
is_active (some row) = row.active

pub activate : ℕ → String → String → KillTable → KillTable
activate now username phrase table = some (record {
  active = true;
  triggered_at = some now;
  triggered_by = some username;
  phrase = some phrase;
  cleared_at = none;
  cleared_by = none;
})

-- Whether a row was changed, and the table.
pub clear : ℕ → String → KillTable → Bool × KillTable
clear now username none = (false, none)
clear now username (some row) =
    if row.active
    then (
      true,
      some (record row { active = false; cleared_at = some now; cleared_by = some username }),
    )
    else (false, some row)

-- The writes: an instant, the user, and the phrase of a trigger.
pub data KillWrite : Type 0 where
  triggered : ℕ → String → String → KillWrite
  rearmed : ℕ → String → KillWrite

abbrev pub after_write : KillTable → KillWrite → KillTable
after_write table (triggered now username phrase) = activate now username phrase table
after_write table (rearmed now username) = (clear now username table).1

abbrev pub after_writes : KillTable → List KillWrite → KillTable
after_writes table ws = foldl after_write table ws

abbrev pub is_rearm : KillWrite → Bool
is_rearm (triggered now username phrase) = false
is_rearm (rearmed now username) = true

abbrev pub any_rearm : List KillWrite → Bool
any_rearm [] = false
any_rearm (w ∷ ws) = if is_rearm w then true else any_rearm ws

stays_active :
    (ws : List KillWrite) (table : KillTable)
    → is_active table ≡ true
    → any_rearm ws ≡ false
    → is_active (after_writes table ws) ≡ true
unfolding is_active activate
stays_active [] table h rearms = h
stays_active (triggered now username phrase ∷ ws) table h rearms = stays_active ws _ refl rearms
stays_active (rearmed now username ∷ ws) table h rearms = cc rearms

clear-cleared :
    (now : ℕ) (username : String) (t : KillTable)
    → ((clear now username t).0 ≡ is_active t) × (is_active (clear now username t).1 ≡ false)
unfolding is_active clear
clear-cleared now username none = (refl, refl)
clear-cleared now username (some row) = ground arith

-- A trigger holds through every later write but a re-arming; and a re-arming reports a change exactly
-- where the flag was active, and leaves it inactive.
pub kill_latch :
    (now : ℕ) (username phrase : String) (table : KillTable) (ws : List KillWrite) (later : ℕ)
    (operator : String)
    → any_rearm ws ≡ false
    → (is_active (after_writes (activate now username phrase table) ws) ≡ true)
      × ((clear later operator table).0 ≡ is_active table)
      × (is_active (clear later operator table).1 ≡ false)
unfolding is_active activate
kill_latch now username phrase table ws later operator rearms =
    let (reports, ends) = clear-cleared later operator table in
    (stays_active ws _ refl rearms, reports, ends)
