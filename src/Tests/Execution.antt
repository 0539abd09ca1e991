-- ===== src/Tests/Execution.antt =====
-- An order that is trailed: a buy at 1.1 with the stop at 1.09.
use forex_ea.Prelude.{ℕ, refl, Bool, true, false, Option, none, some, List, [], ◌∷◌, inl, arith}
use forex_ea.Prelude.Int.{ℤ, pos}
use forex_ea.Float.Fixed.{fixed_float, Fixed-IsOrdered}
use forex_ea.Execution.{Order, Extra, OrderStatus, SignalType, Bar}
use forex_ea.Execution.Stops.{StopPolicy, update_peak}
use forex_ea.Execution.Stops.Ratchet.{IsTighter}
use forex_ea.Execution.Trailing.{trail}
use forex_ea.Execution.Trailing.Ratchet.{Keeps, trail-Keeps, breakeven_lock}

abbrev pub bare : Extra ℤ
bare = record {
  peak_price = none;
  initial_stop_loss = none;
  risk_weight = none;
  booked_risk_pct = none;
  regime = none;
}

abbrev pub buy_order : Order ℤ
buy_order = record {
  id = 1;
  symbol = "EURUSD";
  side = SignalType.buy;
  lot_size = pos 100;
  entry_price = pos 11_000;
  stop_loss = pos 10_900;
  take_profit = pos 11_300;
  opened_at = 0;
  strategy = "ma_crossover";
  status = OrderStatus.open_status;
  exit_price = none;
  closed_at = none;
  pnl = pos 0;
  close_reason = "";
  broker_ticket = none;
  extra = bare;
}

abbrev policy : StopPolicy ℤ
policy = record {
  breakeven_trigger_r = pos 10_000;
  trail_start_r = pos 15_000;
  trail_distance_r = pos 10_000;
}

abbrev pub bar_of : ℕ → ℕ → Bar ℤ
bar_of low high = record {
  open_price = pos low;
  high = pos high;
  low = pos low;
  close_price = pos high;
}

abbrev ticks : List (Option (Bar ℤ) × Bool)
ticks =
    (some (bar_of 11_010 11_160), true) ∷ (none, true) ∷ (some (bar_of 11_050 11_200), false) ∷ []

trail-Keeps_example : Keeps buy_order (trail policy ticks buy_order)
trail-Keeps_example = trail-Keeps Fixed-IsOrdered policy ticks buy_order refl

-- The first bar gains 1.2 R: the stop moves to the entry.
breakeven_lock_example :
    IsTighter SignalType.buy
      (pos 11_000)
      (trail policy ((some (bar_of 11_020 11_120), true) ∷ ticks) buy_order).stop_loss
unfolding update_peak
breakeven_lock_example =
    breakeven_lock Fixed-IsOrdered policy (bar_of 11_020 11_120) ticks buy_order (pos 11_120)
      (inl refl) refl refl refl refl refl (λ early. absurd (ground (arith, early)))
