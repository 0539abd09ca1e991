-- ===== src/Tests/Portfolio.antt =====
-- The throttle, its pairs, and a resolver's cache at concrete inputs.
use forex_ea.Prelude.{◌≡◌, refl, true, false, Option, none, some, List, [], ◌∷◌, ◌++◌, String}
use forex_ea.Prelude.Int.{ℤ, pos}
use forex_ea.Float.Fixed.{fixed_float, Fixed-IsOrdered}
use forex_ea.Execution.{SignalType}
use forex_ea.Correlation.{
  OpenPosition, ThrottlePolicy, PairTable, decide, contributions, contribution, correlation, pair,
}
use forex_ea.Correlation.Monotone.{refused_with_more}
use forex_ea.Risk.Sizing.{SymbolInfo, PipResolver, Query}
use forex_ea.Tests.Carrier.{Fixed-IsMonotone}

abbrev strict : ThrottlePolicy ℤ
strict = record {
  enabled = true;
  max_correlated_heat_pct = pos 150;
  correlation_floor = pos 3_000;
  unknown_pair_correlation = pos 0;
}

abbrev pairs : PairTable ℤ
pairs = (("EURUSD", "GBPUSD"), pos 8_000) ∷ []

abbrev one_buy : List (OpenPosition ℤ)
one_buy = record { symbol = "GBPUSD"; side = SignalType.buy; risk_pct = pos 100 } ∷ []

abbrev one_sell : List (OpenPosition ℤ)
one_sell = record { symbol = "GBPUSD"; side = SignalType.sell; risk_pct = pos 100 } ∷ []

refused : (decide strict pairs "EURUSD" SignalType.buy (pos 100) one_buy).approved ≡ false
unfolding decide contributions contribution correlation pair
refused = refl

refused_with_more_example :
    (decide strict pairs "EURUSD" SignalType.buy (pos 100) (one_buy ++ one_sell)).approved ≡ false
refused_with_more_example =
    refused_with_more Fixed-IsOrdered Fixed-IsMonotone strict pairs "EURUSD" SignalType.buy
      (pos 100) one_buy one_sell refl refused

abbrev silent : String → Option (SymbolInfo ℤ)
silent symbol = none

abbrev quoting : String → Option (SymbolInfo ℤ)
quoting symbol =
    some (record { point = pos 10; trade_tick_value = pos 10_000; trade_tick_size = pos 10 })

abbrev empty : PipResolver ℤ
empty = record { size_cache = []; value_cache = [] }

abbrev queries : List (Query ℤ)
queries = Query.asks_size quoting "XAUUSD" ∷ Query.asks_value quoting "EURUSD" (pos 10_000) ∷ []
