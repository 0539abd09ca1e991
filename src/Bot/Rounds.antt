-- ===== src/Bot/Rounds.antt =====
-- What the loop of src/bot.py is built with, what the outside says during one iteration (the feed, the
-- switches, the clocks), and the state of the loop.
use forex_ea.Prelude.{ℕ, Bool, false, Option, none, some, List, String, not}
use forex_ea.Table.{Table, string_eq, pair_eq}
use forex_ea.Result.{Result}
use forex_ea.Execution.{Bar, Signal}
use forex_ea.Execution.Stops.{StopPolicy}
use forex_ea.Allocator.{AllocatorPolicy, Allocation}
use forex_ea.Risk.Sizing.{Pips}
use forex_ea.Controls.KillSwitch.{KillTable, is_active}
use forex_ea.Controls.BotControl.{BotControlTable, should_run}
use forex_ea.Watchdog.{Heartbeat}
use forex_ea.Bot.{Bot, Executor, Clock}
use forex_ea.Bot.Reconcile.{Positions}

-- A strategy over the frames `B` of the feed.
pub record Strategy (F B : Type 0) : Type 0 where
  pub name : String
  pub preferred_regimes : List String
  pub generate_signal : B → Result (Signal F)

-- What the bot is built with; `trend_of` is the classifier, if there is one.
pub record Setup (F B E : Type 0) : Type 0 where
  pub executor : Executor F E
  pub pips : Pips F
  pub stop_manager : Option (StopPolicy F)
  pub strategies : List (String × List (Strategy F B))
  pub timeframe : String
  pub count_of : B → ℕ
  pub last_ts : B → ℕ
  pub trend_of : Option (B → String)
  pub signal_filter : Option (Signal F → B → String → Bool)
  pub journal_reconcile_ticks : ℕ
  pub process_name : String
  -- absent without a calculator or without its store
  pub correlation_refresh_ticks : Option ℕ
  pub allocator : Option (AllocatorPolicy F)
  pub allocator_refresh_ticks : ℕ
  pub allocator_score_window : ℕ

-- One iteration: the switches, the feed, the positions that the broker lists, and the clocks. The last of
-- the two bars that `_apply_trailing` and `_close_trigger` ask for is `none` where there are no bars, and
-- an exception of the feed ends the tick there; `latest_bars` is `none` where the feed raises, which the
-- scan of the symbols catches. `matrix` are the rows that `upsert_matrix` writes: none where fewer than two
-- symbols have enough bars, or the calculation raises.
pub record Round (F B : Type 0) : Type 0 where
  pub kill_switch : Option KillTable
  pub control : Option BotControlTable
  pub trail_bar : String → Result (Option (Bar F))
  pub close_bar : String → Result (Option (Bar F))
  pub matrix : List ((String × String) × F)
  pub latest_bars : String → Option B
  pub positions : Option (Positions F)
  pub now : ℕ
  pub monotonic : ℕ
  pub close_clock : ℕ → Clock F
  pub signal_clock : String → String → Clock F

pub record Loop (F E : Type 0) : Type 0 where
  pub bot : Bot F E
  pub running : Bool
  pub tick_count : ℕ
  pub last_bar_ts : Table (String × String) ℕ
  pub last_reconcile : Option ℕ
  pub last_correlation_refresh : Option ℕ
  pub last_allocator_refresh : Option ℕ
  pub allocation_store : Table (String × String) (Allocation F)
  pub heartbeats : Option (Table String Heartbeat)

abbrev pub is_killed : Option KillTable → Bool
is_killed none = false
is_killed (some table) = is_active table

abbrev pub is_paused : Option BotControlTable → Bool
is_paused none = false
is_paused (some table) = not (should_run table)
