-- ===== src/Tests/Risk.antt =====
-- A signal that passes every gate: a buy of EURUSD with a stop of 20 pips on an account of 10000.
use mathlib.Core.Option
use forex_ea.Prelude.{◌≡◌, ◌≤◌, refl, true, none, some, List, [], ◌∷◌, String, arith, foldl}
use forex_ea.Prelude.Int.{ℤ, pos, negsuc, ◌+ℤ◌}
use forex_ea.Float.Fixed.{fixed_float, Fixed-IsOrdered}
use forex_ea.Execution.{SignalType}
use forex_ea.Result.{ok}
use forex_ea.Calendar.{
  BlackoutPolicy, CalendarEvent, current_blackout, events_in_window, by_time, insert_event,
}
use forex_ea.Calendar.Symbols.{
  currencies_for_symbol, strip_suffix, strip_letter, find_explicit, find_currency,
}
use forex_ea.Calendar.Blackout.{IsVerdict, current_blackout-IsVerdict}
use forex_ea.Correlation.{
  OpenPosition, ThrottlePolicy, PairTable, decide, contributions, contribution, correlation, pair,
}
use forex_ea.PropFirm.{check, over_cap}
use forex_ea.Risk.Sizing.{lot_size_from_risk, lots_of, default_lots}
use forex_ea.Risk.Sizing.Bounds.{IsSized, lot_size_from_risk-IsSized}
use forex_ea.Risk.Manager.{
  RiskManager, RiskLimits, RiskState, RiskDecision, RiskReason, Request, evaluate, assess,
  first_veto, account_gate, calendar_gate, throttle_gate, throttle_with, finish,
  daily_reset_if_needed, register_trade_opened, register_trade_closed,
}
use forex_ea.Risk.Manager.Approval.{IsSafe, sized_by, approved_trade-IsSafe}
use forex_ea.Risk.Manager.Exposure.{RiskSteps, RiskStep, open_trade_count_bounded}
use forex_ea.Risk.Manager.Day.{DayCall, after_day, daily_pnl_sums}
use forex_ea.Tests.Carrier.{Fixed-IsFloored}
use forex_ea.Tests.PropFirm.{challenge, alive}

abbrev news_policy : BlackoutPolicy
news_policy = record { enabled = true; before_min = 30; after_min = 30; impacts = "high" ∷ [] }

abbrev payrolls : CalendarEvent
payrolls = record {
  event_time = 20_000_000_000;
  currency = "USD";
  impact = "high";
  title = "Nonfarm payrolls";
  actual = none;
  forecast = none;
  previous = none;
  source = "ff";
}

abbrev throttle : ThrottlePolicy ℤ
throttle = record {
  enabled = true;
  max_correlated_heat_pct = pos 300;
  correlation_floor = pos 3_000;
  unknown_pair_correlation = pos 0;
}

abbrev pairs : PairTable ℤ
pairs = (("EURUSD", "GBPUSD"), pos 8_000) ∷ []

abbrev positions : List (OpenPosition ℤ)
positions = record { symbol = "GBPUSD"; side = SignalType.buy; risk_pct = pos 100 } ∷ []

abbrev pub limits : RiskLimits ℤ
limits = record {
  risk_per_trade = pos 100;
  max_open_trades = 2;
  max_daily_loss_pct = pos 500;
  max_portfolio_heat_pct = pos 600;
  min_balance = pos 1_000_000;
  daily_profit_target = pos 0;
}

abbrev pub manager : RiskManager ℤ
manager = record {
  limits = limits;
  blackout_checker = some (news_policy, payrolls ∷ []);
  portfolio_throttle = some (throttle, pairs);
  propfirm_guard = some (challenge, some alive);
}

abbrev ten_a_pip : String → ℤ
ten_a_pip symbol = pos 100_000

abbrev request : Request ℤ
request = record {
  account_balance = pos 100_000_000;
  stop_distance_pips = pos 200_000;
  symbol = "EURUSD";
  side = some SignalType.buy;
  open_positions = some positions;
  risk_multiplier = pos 10_000;
  reset_at = 1_000_000;
  blackout_at = 1_000_001;
}

abbrev start : RiskState ℤ
start = record {
  open_trade_count = 1;
  open_risk_pct = pos 100;
  daily_pnl = negsuc 999_999;
  last_reset = some 0;
}

abbrev half_a_lot : RiskDecision ℤ
half_a_lot = record { approved = true; reason = RiskReason.all_passed; lot_size = some (pos 5_000) }

half_lot :
    lot_size_from_risk default_lots (pos 100_000_000) (pos 100) (pos 200_000) (pos 100_000)
    ≡ ok (pos 5_000)
unfolding lot_size_from_risk lots_of
half_lot = refl

approval : (evaluate manager (sized_by ten_a_pip) request start).0 ≡ ok half_a_lot
unfolding evaluate assess first_veto account_gate calendar_gate throttle_gate throttle_with finish
    daily_reset_if_needed Option.or_else current_blackout events_in_window by_time insert_event
    currencies_for_symbol strip_suffix strip_letter find_explicit find_currency decide contributions
    contribution correlation pair check over_cap lot_size_from_risk lots_of
approval = refl

approved_trade-IsSafe_example :
    (lots : ℤ) × (half_a_lot.lot_size ≡ some lots)
    × IsSafe manager ten_a_pip
        (news_policy, payrolls ∷ [])
        (throttle, pairs)
        (challenge, alive)
        SignalType.buy
        positions
        request
        (evaluate manager (sized_by ten_a_pip) request start).1
        lots
approved_trade-IsSafe_example =
    approved_trade-IsSafe Fixed-IsOrdered Fixed-IsFloored manager ten_a_pip
      (news_policy, payrolls ∷ []) (throttle, pairs) (challenge, alive) SignalType.buy positions
      request start half_a_lot refl refl refl refl refl refl refl refl refl refl refl approval refl

lot_size_from_risk-IsSized_example :
    IsSized default_lots
      (pos 100_000_000)
      (pos 100)
      (pos 200_000)
      (pos 100_000)
      (lot_size_from_risk default_lots (pos 100_000_000) (pos 100) (pos 200_000) (pos 100_000))
lot_size_from_risk-IsSized_example =
    lot_size_from_risk-IsSized Fixed-IsOrdered Fixed-IsFloored default_lots (pos 100_000_000)
      (pos 100) (pos 200_000) (pos 100_000) refl refl refl refl

abbrev second_open : RiskState ℤ
second_open = register_trade_opened (pos 95) (evaluate manager (sized_by ten_a_pip) request start).1

open_trade_count_bounded_example :
    (register_trade_closed (pos 95) (pos 30_000) second_open).open_trade_count ≤ 2
open_trade_count_bounded_example =
    open_trade_count_bounded {lim = limits} {s = start}
      (RiskSteps.next
        (RiskSteps.next RiskSteps.start (
          RiskStep.opening manager (sized_by ten_a_pip) request half_a_lot (pos 95) refl approval
            refl))
        (RiskStep.closing (pos 95) (pos 30_000)))
      (omega arith)

abbrev calls : List (DayCall ℤ)
calls =
    DayCall.evaluated manager (sized_by ten_a_pip) request
    ∷ DayCall.opened (pos 95)
    ∷ DayCall.closed (pos 95) (negsuc 99_999)
    ∷ DayCall.closed (pos 100) (pos 250_000)
    ∷ []

daily_pnl_sums_example :
    (after_day start calls).daily_pnl
    ≡ foldl ◌+ℤ◌ (negsuc 999_999) (negsuc 99_999 ∷ pos 250_000 ∷ [])
daily_pnl_sums_example = daily_pnl_sums 0 calls start refl (refl, tt)

current_blackout-IsVerdict_example :
    IsVerdict news_policy
      (currencies_for_symbol "EURUSD")
      20_100_000_000
      (payrolls ∷ [])
      (current_blackout news_policy (payrolls ∷ []) "EURUSD" 20_100_000_000)
current_blackout-IsVerdict_example =
    current_blackout-IsVerdict news_policy (payrolls ∷ []) "EURUSD" 20_100_000_000 refl
