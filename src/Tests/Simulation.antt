-- ===== src/Tests/Simulation.antt =====
-- A replayed path and a short simulation.
use forex_ea.Prelude.{◌≡◌, ◌+◌, refl, arith, nat_beq, false, true, List, none, some, [], ◌∷◌, All}
use forex_ea.Float.{◌≺◌}
use forex_ea.Backtest.Returns.{run_backtest-returns}
use forex_ea.Prelude.Int.{pos_part, neg_part, ℤ, pos, negsuc}
use forex_ea.Float.Fixed.{fixed_float, Fixed-IsOrdered, product}
use forex_ea.Execution.{SignalType, Signal, Bar}
use forex_ea.Execution.Exits.{close_trigger}
use forex_ea.Result.{ReturnsWith, ok}
use forex_ea.Replay.{walk}
use forex_ea.Replay.Walk.{IsFirstExit, walk-IsFirstExit}
use forex_ea.Risk.Sizing.{Pips, lot_size_from_risk, lots_of}
use forex_ea.Backtest.{
  Trade, TradeReason, BacktestResult, Row, Strategy, run_backtest, loop, on_bar, exits, entries,
  check_stop_or_target, close, pnl, open_from_signal, at_end,
}
use forex_ea.Backtest.Equity.{sum_from, IsClosed, final_equity_sums}
use forex_ea.Backtest.Agreement.{carried_out, replay_reason, exit_rules_agree}
use forex_ea.Tests.Execution.{buy_order, bar_of}

abbrev path : List (Bar ℤ)
path = bar_of 10_950 11_100 ∷ bar_of 10_880 11_400 ∷ bar_of 10_000 12_000 ∷ []

walk-IsFirstExit_example :
    IsFirstExit 0 true (pos 10_900) (pos 11_300) path (walk true (pos 10_900) (pos 11_300) path)
walk-IsFirstExit_example = walk-IsFirstExit true (pos 10_900) (pos 11_300) path

abbrev pips : Pips ℤ
pips = record { size_of = λ symbol. pos 1; value_of = λ symbol lots. pos 1_000 }

abbrev bought : Trade ℤ
bought = record {
  entry_time = 0;
  exit_time = none;
  side = SignalType.buy;
  symbol = "EURUSD";
  entry_price = pos 11_000;
  exit_price = none;
  stop_loss = pos 10_900;
  take_profit = pos 11_300;
  lot_size = pos 100;
  pnl = pos 0;
  reason = TradeReason.unset;
}

exit_rules_agree_example :
    (check_stop_or_target pips bought (bar_of 10_880 11_400) 60
      ≡ carried_out pips bought 60 (close_trigger buy_order (some (bar_of 10_880 11_400))))
    × ((walk true (pos 10_900) (pos 11_300) (bar_of 10_880 11_400 ∷ [])).1
        ≡ replay_reason (close_trigger buy_order (some (bar_of 10_880 11_400))))
exit_rules_agree_example =
    exit_rules_agree pips buy_order bought (bar_of 10_880 11_400) 60 refl refl refl

abbrev stopless : Signal ℤ
stopless = record {
  type = SignalType.sell;
  symbol = "EURUSD";
  timestamp = 0;
  price = pos 11_000;
  stop_loss = none;
  take_profit = some (pos 10_900);
  reason = "";
}

abbrev sold : Trade ℤ
sold = record bought { side = SignalType.sell; stop_loss = pos 0; take_profit = pos 10_900 }

abbrev buys_at_first : Strategy ℤ
buys_at_first (row ∷ []) = ok (record {
  type = SignalType.buy;
  symbol = "EURUSD";
  timestamp = 0;
  price = pos 11_000;
  stop_loss = some (pos 10_900);
  take_profit = some (pos 11_300);
  reason = "";
})
buys_at_first _ = ok (record stopless { type = SignalType.hold })

buys-returns : (window : List (Row ℤ)) → ReturnsWith (λ s. Unit {0}) (buys_at_first window)
buys-returns [] = (_, refl, tt)
buys-returns (row ∷ []) = (_, refl, tt)
buys-returns (row ∷ next ∷ rows) = (_, refl, tt)

abbrev rows : List (Row ℤ)
rows = (0, bar_of 10_950 11_100) ∷ (60, bar_of 10_880 11_100) ∷ []

abbrev stopped_out : BacktestResult ℤ
stopped_out = record {
  trades =
      record bought {
        exit_time = some 60;
        exit_price = some (pos 10_900);
        lot_size = pos 100_000;
        pnl = negsuc 99_999;
        reason = TradeReason.stop;
      }
      ∷ [];
  equity_curve = pos 100_000_000 ∷ pos 99_900_000 ∷ [];
  final_equity = pos 99_900_000;
  total_return = negsuc 9;
  win_rate = pos 0;
  total_trades = 1;
  profit_factor = pos 0;
}

simulated :
    run_backtest pips buys_at_first (pos 100_000_000) (pos 100) 0 "EURUSD" rows ≡ ok stopped_out
unfolding run_backtest loop on_bar exits entries check_stop_or_target close pnl open_from_signal
    at_end lot_size_from_risk lots_of
simulated = refl

final_equity_sums_example :
    (stopped_out.final_equity ≡ sum_from (pos 100_000_000) stopped_out.trades)
    × All (IsClosed pips) stopped_out.trades
final_equity_sums_example =
    final_equity_sums pips buys_at_first (pos 100_000_000) (pos 100) 0 "EURUSD" rows stopped_out
      simulated

abbrev ten_a_pip : Pips ℤ
ten_a_pip = record { size_of = λ symbol. pos 1; value_of = λ symbol lots. pos 100_000 }

worth :
    (d : ℤ)
    → pos 0 ≺ d
    → nat_beq (pos_part (product d (pos 100_000)) + 0) (0 + neg_part (product d (pos 100_000)))
      ≡ false
worth (pos d) h = ground arith
worth (negsuc d) h = absurd (ground (arith, h))

run_backtest-returns_example :
    ReturnsWith
      (λ r. Unit {0})
      (run_backtest ten_a_pip buys_at_first (pos 100_000_000) (pos 100) 0 "EURUSD" rows)
run_backtest-returns_example =
    run_backtest-returns Fixed-IsOrdered ten_a_pip (pos 100) "EURUSD" refl (refl, refl, refl, worth)
      buys_at_first buys-returns (pos 100_000_000) 0 rows refl
