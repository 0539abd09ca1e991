-- ===== src/Execution/Exits.antt =====
-- Which level the most recent bar reached: `_close_trigger` of src/bot.py.
use forex_ea.Prelude.{Option, none, some, if◌then◌else◌}
use forex_ea.Float.{Float}
use forex_ea.Execution.{Order, Bar, is_buy}

-- The texts "stop" and "target".
pub data Trigger : Type 0 where
  stop target : Trigger

module _ {F : Type 0} ⦃f : Float F⦄ where
  open f use {le}

  unfoldable pub close_trigger : Order F → Option (Bar F) → Option Trigger
  close_trigger o none = none
  close_trigger o (some last) =
      let hit_sl = if is_buy o.side then le last.low o.stop_loss else le o.stop_loss last.high in
      let hit_tp =
        if is_buy o.side then le o.take_profit last.high else le last.low o.take_profit in
      if hit_sl then some Trigger.stop else if hit_tp then some Trigger.target else none
