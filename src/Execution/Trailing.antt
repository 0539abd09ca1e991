-- ===== src/Execution/Trailing.antt =====
-- One pass of the trailing stop over an open order: `_apply_trailing` of src/bot.py. The executor's
-- `modify` either sets the stop or leaves the order alone; which of the two is an input of a step.
pub mod Ratchet
use forex_ea.Prelude.{Option, none, some, Bool, true, false, if◌then◌else◌, List, [], ◌∷◌, ◌++◌, ℕ}
use forex_ea.Float.{Float}
use forex_ea.Execution.{Order, Bar}
use forex_ea.Execution.Stops.{StopPolicy, update_peak, proposed_stop}

-- The row that `journal.record_modify` appends.
pub record Modification (F : Type 0) : Type 0 where
  pub trade_id : ℕ
  pub stop_loss : F
  pub take_profit : F

module _ {F : Type 0} ⦃f : Float F⦄ where
  open f use {eq}

  -- `executor.modify(order, stop_loss=new_sl)`
  abbrev pub modify_stop : Bool → Order F → F → Order F
  modify_stop accepted o new_sl = if accepted then record o { stop_loss = new_sl } else o

  -- The part behind `proposed_stop`, with the stop that the executor left.
  abbrev journal_change : Order F → F → List (Modification F)
  journal_change o prev =
      if eq o.stop_loss prev
      then []
      else record { trade_id = o.id; stop_loss = o.stop_loss; take_profit = o.take_profit } ∷ []

  abbrev pub move_stop : Bool → Order F → Option F → Order F × List (Modification F)
  move_stop accepted o none = (o, [])
  move_stop accepted o (some new_sl) =
      let o' = modify_stop accepted o new_sl in (o', journal_change o' o.stop_loss)

  pub apply_trailing :
      StopPolicy F → Bool → Option (Bar F) → Order F → Order F × List (Modification F)
  apply_trailing pol accepted none o = (o, [])
  apply_trailing pol accepted (some last) o =
      let o' = update_peak o last.high last.low in move_stop accepted o' (proposed_stop pol o')

  -- The order after a run of ticks; each has the bar of the feed, if any, and the executor's answer.
  pub trail : StopPolicy F → List (Option (Bar F) × Bool) → Order F → Order F
  trail pol [] o = o
  trail pol ((bar, accepted) ∷ ticks) o = trail pol ticks (apply_trailing pol accepted bar o).0
