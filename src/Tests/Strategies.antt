-- ===== src/Tests/Strategies.antt =====
-- A crossing of two averages over four bars.
use forex_ea.Prelude.{ℕ, ◌+◌, ◌-◌, ◌≡◌, refl, [], ◌∷◌, arith, nat_beq, if◌then◌else◌}
use forex_ea.Prelude.Int.{ℤ, pos, negsuc}
use forex_ea.Float.{◌≼◌}
use forex_ea.Float.Fixed.{fixed_float, product}
use forex_ea.Execution.{SignalType}
use forex_ea.Backtest.{Row}
use forex_ea.Strategies.{Frame, Indicators, Format, Levels, Context, AnyStrategy}
use forex_ea.Strategies.Generate.{generate_signal}
use forex_ea.Strategies.Brackets.{IsSigned, IsBracketed, generate_signal-IsBracketed}
use forex_ea.Tests.Execution.{bar_of}

nought-le-product : (x y : ℤ) → pos 0 ≼ x → pos 0 ≼ y → pos 0 ≼ product x y
nought-le-product (pos a) (pos b) h k = ground arith
nought-le-product (negsuc a) y h k = absurd (ground (arith, h))
nought-le-product (pos a) (negsuc b) h k = absurd (ground (arith, k))

Fixed-IsSigned : IsSigned ℤ
Fixed-IsSigned = record {
  nought-le-mul = λ x y h k n. nought-le-product x y h k;
  sub-le = λ x y h n. ground arith;
  le-add = λ x y h n. ground arith;
}

-- The fast average crosses the slow one from below; nothing else is read.
abbrev indicators : Indicators ℤ
indicators = record {
  ema = λ n ohlc back. pos (if nat_beq back 0 then 11_000 - n else 11_000 + n);
  rsi = λ n ohlc back. pos 0;
  atr = λ n ohlc. pos 20;
  macd_line = λ fast slow n ohlc back. pos 0;
  macd_signal = λ fast slow n ohlc back. pos 0;
  bb_upper = λ n num_std ohlc back. pos 0;
  bb_middle = λ n num_std ohlc back. pos 0;
  bb_lower = λ n num_std ohlc back. pos 0;
  stoch_k = λ k d ohlc back. pos 0;
  stoch_d = λ k d ohlc back. pos 0;
  adx = λ n ohlc back. pos 0;
  plus_di = λ n ohlc. pos 0;
  minus_di = λ n ohlc. pos 0;
  highest = λ n ohlc. pos 0;
  lowest = λ n ohlc. pos 0;
  series_min = λ widths. pos 0;
}

abbrev format : Format ℤ
format = record { fixed = λ k x. "x"; repr = λ x. "x"; int = λ n. "n" }

abbrev levels : Levels ℤ
levels = record { atr_period = 14; atr_sl_mult = pos 15_000; atr_tp_mult = pos 30_000 }

abbrev context : Context ℤ
context = record { ind = indicators; fmt = format; symbol = "EURUSD"; now = 9; levels = levels }

abbrev row : ℕ → Row ℤ
row n = (n, bar_of 10_990 11_010)

abbrev earlier : Frame ℤ
earlier = row 3 ∷ row 2 ∷ row 1 ∷ []

generate_signal-IsBracketed_example :
    IsBracketed "EURUSD"
      (row 4)
      (generate_signal context (AnyStrategy.ma_crossover 1 2) (row 4 ∷ earlier))
generate_signal-IsBracketed_example =
    generate_signal-IsBracketed Fixed-IsSigned context (row 4) earlier
      (record {
        sl_sign = refl;
        tp_sign = refl;
        atr_sign = refl;
        sl_number = refl;
        tp_number = refl;
        numbers = (refl, refl, refl, refl);
      })
      (AnyStrategy.ma_crossover 1 2) tt

-- It is a buy.
crossing-buy :
    (generate_signal context (AnyStrategy.ma_crossover 1 2) (row 4 ∷ earlier)).type ≡ SignalType.buy
unfolding generate_signal
crossing-buy = refl
