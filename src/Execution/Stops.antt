-- ===== src/Execution/Stops.antt =====
-- Breakeven and trailing stops: src/execution/stops.py.
pub mod Ratchet
use forex_ea.Prelude.{Option, none, some, Bool, if◌then◌else◌, ◌&&◌}
use forex_ea.Float.{Float, max_of, min_of}
use forex_ea.Execution.{Order, is_buy, is_sell}
use mathlib.Core.Option

pub record StopPolicy (F : Type 0) : Type 0 where
  pub breakeven_trigger_r : F
  pub trail_start_r : F
  pub trail_distance_r : F

module _ {F : Type 0} ⦃f : Float F⦄ where
  open f use {add, sub, mul, div, abs, le, lt, nought, lit}

  -- The best price so far, given the price of the new bar.
  abbrev better : Bool → Option F → F → F
  better long none bar = bar
  better long (some current) bar = if long then max_of current bar else min_of current bar

  unfoldable pub update_peak : Order F → F → F → Order F
  update_peak o bar_high bar_low =
      let best =
        better (is_buy o.side) o.extra.peak_price (if is_buy o.side then bar_high else bar_low) in
      record o { extra = record (o.extra) { peak_price = some best } }

  abbrev pub trail_level : Order F → F → F → StopPolicy F → F
  trail_level o peak risk pol =
      let offset = mul pol.trail_distance_r risk in
      if is_buy o.side then sub peak offset else add peak offset

  pub target_stop : Order F → F → F → F → StopPolicy F → Option F
  target_stop o peak risk gain_r pol =
      let eps = lit 1 9 in
      if le pol.trail_start_r (add gain_r eps)
      then some (trail_level o peak risk pol)
      else if le pol.breakeven_trigger_r (add gain_r eps)
      then some o.entry_price
      else none

  -- Only tighten, never loosen.
  pub ratchet : Order F → Option F → Option F
  ratchet o none = none
  ratchet o (some new_sl) =
      if is_buy o.side && lt o.stop_loss new_sl
      then some new_sl
      else if is_sell o.side && lt new_sl o.stop_loss
      then some new_sl
      else none

  abbrev pub initial_stop : Order F → F
  initial_stop o = Option.get_or o.extra.initial_stop_loss o.stop_loss

  abbrev pub initial_risk : Order F → F
  initial_risk o = abs (sub o.entry_price (initial_stop o))

  abbrev pub gain : Order F → F → F → F
  gain o peak risk =
      if is_buy o.side then div (sub peak o.entry_price) risk else div (sub o.entry_price peak) risk

  proposed_from : StopPolicy F → Order F → F → Option F → Option F
  unfolding target_stop ratchet
  proposed_from pol o risk none = none
  proposed_from pol o risk (some peak) = ratchet o (target_stop o peak risk (gain o peak risk) pol)

  pub proposed_stop : StopPolicy F → Order F → Option F
  unfolding proposed_from
  proposed_stop pol o =
      let risk = initial_risk o in
      if le risk nought then none else proposed_from pol o risk o.extra.peak_price
