-- ===== src/Bot/Closing.antt =====
-- Closing an order: `_close_order` of src/bot.py, and the loop of `tick` that calls it. The recorder of
-- the replay path and the narrator, whose failures the code catches, write none of this state.
pub mod Cooldown
use forex_ea.Prelude.{
  ℕ, zero, suc, ◌+◌, ◌*◌, Bool, true, false, Option, none, some, List, [], ◌∷◌, ◌++◌, String, not,
  ◌&&◌, if◌then◌else◌, ltb, nat_beq,
}
use forex_ea.Table.{Table, lookup, upsert, delete, nat_eq}
use forex_ea.Float.{Float}
use forex_ea.Execution.{Order, Bar, second}
use forex_ea.Execution.Exits.{Trigger, close_trigger}
use forex_ea.Fills.{FillEvent, record_fill, nonzero}
use forex_ea.Journal.{is_closed, coalesce, record_close}
use forex_ea.Risk.Manager.{RiskManager, register_trade_closed}
use forex_ea.Bot.{Bot, Executor, Clock, Message}

abbrev pub text_of : Trigger → String
text_of Trigger.stop = "stop"
text_of Trigger.target = "target"

-- `a or b`
abbrev pub or_id : Option ℕ → ℕ → ℕ
or_id none id = id
or_id (some zero) id = id
or_id (some (suc n)) id = suc n

abbrev pub close_retry_cooldown : ℕ
close_retry_cooldown = 30 * second

-- `retry_after and time.monotonic() < retry_after`
abbrev pub waits : ℕ → Option ℕ → Bool
waits now none = false
waits now (some retry_after) = not (nat_beq retry_after 0) && ltb now retry_after

module _ {F : Type 0} ⦃f : Float F⦄ where
  open f use {mul, lit}

  abbrev pub ticket_of : Order F → ℕ
  ticket_of o = or_id o.broker_ticket o.id

  abbrev requested_close : Order F → Trigger → F
  requested_close o Trigger.target = o.take_profit
  requested_close o Trigger.stop = o.stop_loss

  -- The risk to credit back: what the opening booked, if the order still carries it.
  unfoldable pub booked_risk : RiskManager F → Order F → F
  booked_risk m o =
      coalesce o.extra.booked_risk_pct
        (mul m.limits.risk_per_trade (coalesce o.extra.risk_weight (lit 1 0)))

  module _ {E : Type 0} where
    abbrev pub say_closed : Order F → Bot F E → Bot F E
    say_closed c b =
        if b.notifies then record b { messages = b.messages ++ Message.trade_closed c ∷ [] } else b

    -- The broker refused: the journal and the risk stay, and the ticket waits.
    abbrev pub postpone : Clock F → Order F → Bot F E → Bot F E
    postpone clk c b = record b {
      close_retry_after =
          upsert (ticket_of c) (clk.monotonic + close_retry_cooldown) b.close_retry_after;
    }

    abbrev pub settle : Order F → Order F → Bot F E → Bot F E
    settle o c b = say_closed c (record b {
      close_retry_after = delete (ticket_of c) b.close_retry_after;
      journal = record_close c b.journal;
      risk_state = register_trade_closed (booked_risk b.risk o) c.pnl b.risk_state;
    })

    abbrev pub after_close : Clock F → Order F → Order F → Bot F E → Bot F E
    after_close clk o c b = if is_closed c.status then settle o c b else postpone clk c b

    abbrev pub log_close : Clock F → Order F → Trigger → Order F → Bot F E → Bot F E
    log_close clk o reason c b = record b {
      fill_store =
          record_fill c FillEvent.close_event (requested_close o reason) clk.latency_ms
            clk.filled_at b.fill_store;
    }

    unfoldable pub close_order : Executor F E → Clock F → Order F → Trigger → Bot F E → Bot F E
    close_order ex clk o reason b =
        let (c, e) = ex.close o (text_of reason) b.executor in
        after_close clk o c (log_close clk o reason c (record b { executor = e }))

    -- The body of the loop over the open orders, behind the trailing stop. The clocks are read at the
    -- test and in the closing.
    abbrev pub by_trigger :
        Executor F E → ℕ → Clock F → Order F → Option Trigger → Bot F E → Bot F E
    by_trigger ex now clk o none b = b
    by_trigger ex now clk o (some trigger) b =
        if waits now (lookup (ticket_of o) b.close_retry_after)
        then b
        else close_order ex clk o trigger b

    unfoldable pub watch_order :
        Executor F E → ℕ → Clock F → Option (Bar F) → Order F → Bot F E → Bot F E
    unfolding close_order
    watch_order ex now clk bar o b = by_trigger ex now clk o (close_trigger o bar) b
