-- ===== src/Controls/BotControl.antt =====
-- Whether the bot should run: `BotControlStore` of src/api/bot_control.py, a table of at most one row.
use forex_ea.Prelude.{ℕ, Bool, true, Option, none, some, String}

pub record BotControlState : Type 0 where
  pub should_run : Bool
  pub updated_at : Option ℕ
  pub updated_by : Option String

abbrev pub BotControlTable : Type 0
BotControlTable = Option BotControlState

-- The constructor of the store: a row that is there stays.
pub create : ℕ → BotControlTable → BotControlTable
create now none = some (record { should_run = true; updated_at = some now; updated_by = none })
create now (some row) = some row

pub should_run : BotControlTable → Bool
should_run none = true
should_run (some row) = row.should_run

pub set : Bool → ℕ → Option String → BotControlTable → BotControlTable
set value now by table =
    some (record { should_run = value; updated_at = some now; updated_by = by })

pub state : BotControlTable → BotControlState
state none = record { should_run = true; updated_at = none; updated_by = none }
state (some row) = row
