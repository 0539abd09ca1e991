-- ===== src/Tests/PropFirm.antt =====
-- A challenge account of 1000 that is observed in a loss.
use forex_ea.Prelude.{◌≡◌, ◌≢◌, refl, true, false, none, some, List, [], ◌∷◌}
use forex_ea.Prelude.Int.{ℤ, pos}
use forex_ea.Float.Fixed.{fixed_float}
use forex_ea.PropFirm.{
  PropFirmPolicy, PropFirmState, Call, observed, opened, observe, check, after_calls, roll_day,
  track_peak, check_daily, check_total,
}
use forex_ea.PropFirm.Kill.{killed_forever}
use forex_ea.PropFirm.Returns.{observe-returns}
use forex_ea.PropFirm.Window.{daily_halt}

abbrev pub challenge : PropFirmPolicy ℤ
challenge = record {
  initial_balance = pos 10_000_000;
  max_daily_loss_pct = pos 500;
  max_total_drawdown_pct = pos 1_000;
  profit_target_pct = pos 1_000;
  min_trading_days = 4;
  max_lot_size = none;
  require_stop_loss = true;
  drawdown_from_peak = false;
  preset_name = "ftmo";
}

abbrev pub alive : PropFirmState ℤ
alive = record {
  initial_balance = pos 10_000_000;
  peak_equity = pos 10_000_000;
  daily_start_equity = pos 10_000_000;
  daily_start_date = 0;
  trading_days_count = 0;
  last_trading_date = none;
  killed_today = false;
  killed_permanently = false;
  killed_reason = none;
  updated_at = 0;
}

abbrev dead : PropFirmState ℤ
dead = record alive { killed_permanently = true }

abbrev later_calls : List (Call ℤ)
later_calls = observed 90_000_000_000 (pos 12_000_000) ∷ opened 90_000_000_000 ∷ []

abbrev same_day : List (Call ℤ)
same_day = opened 20_000_000 ∷ observed 30_000_000 (pos 9_990_000) ∷ []

killed_forever_example :
    (check challenge (after_calls challenge later_calls (some dead)) true (pos 100)).approved
    ≡ false
killed_forever_example = killed_forever challenge later_calls (some dead) true (pos 100) refl

-- The balance 940 is 60 below the start of the day; the limit is 50.
daily_halt_example :
    (check challenge
      (after_calls challenge (observed 10_000_000 (pos 9_400_000) ∷ same_day) (some alive))
      true
      (pos 100)).approved
    ≡ false
unfolding observe roll_day track_peak check_daily check_total
daily_halt_example =
    daily_halt challenge 10_000_000 (pos 9_400_000) alive same_day true (pos 100) refl refl refl
      (λ e. cc e) (refl, (refl, tt))

observe-returns_example : (observe challenge 10_000_000 (pos 8_900_000) (some alive)).0 ≢ none
observe-returns_example = observe-returns challenge 10_000_000 (pos 8_900_000) alive refl refl refl
