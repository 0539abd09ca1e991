-- ===== src/Bot.antt =====
-- The trading bot: src/bot.py. Its state holds what its stores hold, each absent where the bot was
-- built without it. The executor is the interface of src/execution/base.py over a state of its own.
pub mod Alerts
pub mod Closing
pub mod Opening
pub mod Reconcile
pub mod Exposure
pub mod Rounds
pub mod Managing
pub mod Tick
use forex_ea.Prelude.{ℕ, ◌-◌, ◌≡◌, ◌⊎◌, Bool, true, not, ltb, Option, none, some, List, String}
use forex_ea.Table.{Table}
use forex_ea.Result.{Result}
use forex_ea.Execution.{Order, OrderStatus, Signal, SignalType}
use forex_ea.Fills.{Fill}
use forex_ea.Journal.{Journal}
use forex_ea.Risk.Manager.{RiskManager, RiskState, RiskReason}
use forex_ea.Controls.SignalDedup.{DedupTable}
use forex_ea.Controls.Toggles.{ToggleTable}

-- `shared o e` is the executor's state when the bot has written to the order object that `place`
-- returned: an executor that keeps this object sees the change, one that rebuilds its orders does not.
pub record Executor (F E : Type 0) : Type 0 where
  pub account_balance : E → Result F
  pub open_orders : E → List (Order F)
  pub place : Order F → E → Order F × E
  pub close : Order F → String → E → Order F × E
  pub modify : Order F → Option F → Option F → E → Order F × E
  pub shared : Order F → E → E

-- What a broker promises: an order that is placed is refused, or open under its ticket; an order that
-- is closed keeps its key.
pub record IsBroker {F E : Type 0} (ex : Executor F E) : Type 0 where
  pub place_status :
      (o : Order F) (e : E)
      → ((ex.place o e).0.status ≡ OrderStatus.rejected)
        ⊎ (((ex.place o e).0.status ≡ OrderStatus.open_status)
            × ((ex.place o e).0.broker_ticket ≡ some (ex.place o e).0.id))
  pub close_id : (o : Order F) (reason : String) (e : E) → (ex.close o reason e).0.id ≡ o.id

-- The gates that `setup_alert` names.
pub data Gate (F : Type 0) : Type 0 where
  ml_filter : Gate F
  opposite_side : SignalType → Gate F
  risk_manager : RiskReason F → Gate F

-- The calls of the notifier.
pub data Message (F : Type 0) : Type 0 where
  setup_alert : String → String → SignalType → Gate F → Message F
  signal_alert : String → Signal F → Message F
  trade_opened : Order F → String → Message F
  trade_closed : Order F → Message F

-- `notifies` says whether the notifier has these methods; the one that does nothing has none.
pub record Bot (F E : Type 0) : Type 0 where
  pub executor : E
  pub risk : RiskManager F
  pub risk_state : RiskState F
  pub journal : Journal F
  pub signal_dedup_store : Option DedupTable
  pub toggle_store : Option ToggleTable
  pub fill_store : Option (List (Fill F))
  pub allocations : Table (String × String) (String × F)
  pub close_retry_after : Table ℕ ℕ
  pub last_setup_alert : Table (String × String) ℕ
  pub last_signal_alert : Table ((String × String) × SignalType) ℕ
  pub notifies : Bool
  pub messages : List (Message F)

-- Whether the deduplication store raises, and where.
pub data DedupAnswer : Type 0 where
  answers check_raises remember_raises : DedupAnswer

-- Whether a refresh by ticks is due: `last < 0 or (tick_count - last) >= n`
abbrev pub is_due : Option ℕ → ℕ → ℕ → Bool
is_due none count n = true
is_due (some last) count n = not (ltb (count - last) n)

-- What the clocks read while one signal is handled, or one order closed, and how the deduplication store
-- answers.
pub record Clock (F : Type 0) : Type 0 where
  pub alerted_at : ℕ
  pub dedup : DedupAnswer
  pub reset_at : ℕ
  pub blackout_at : ℕ
  pub opened_at : ℕ
  pub noted_at : ℕ
  pub filled_at : ℕ
  pub monotonic : ℕ
  pub latency_ms : F
