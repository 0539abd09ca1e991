-- ===== src/Strategies.antt =====
-- The twelve strategies of src/strategies/: what `generate_signal` makes of the last bars and of the
-- indicators. The rows of a frame stand with the last one first, so that `iloc[-1]` is the first. The
-- indicators (src/indicators/) are pandas' computations and enter as the record Indicators; how Python
-- prints a number is the record Format. The snapshot `signal.indicators`, which is only shown, is left
-- out. With no bar at all every strategy finds too few. The periods are such that the rows that are read
-- exist (`trend_filter` of the pullback is at least 3); below that, pandas raises IndexError.
pub mod Averages
pub mod Ranges
pub mod Breakouts
pub mod Generate
pub mod Brackets
use forex_ea.Prelude.{
  ℕ, zero, suc, ◌+◌, ◌*◌, Bool, true, false, not, ◌&&◌, none, some, List, [], ◌∷◌, String, length,
  ltb, leb, if◌then◌else◌,
}
use forex_ea.Float.{Float}
use forex_ea.Execution.{SignalType, Signal, Bar}
use forex_ea.Backtest.{Row}
use forex_ea.Result.{Result, ok, err, Raised, ◌>>◌, raise_if}
use forex_ea.Signup.Csv.{concat}

abbrev pub Frame : Type 0 → Type 0
Frame F = List (Row F)

-- The column of an indicator of the frame, read so many rows before its last one.
pub record Indicators (F : Type 0) : Type 0 where
  pub ema : ℕ → Frame F → ℕ → F
  pub rsi : ℕ → Frame F → ℕ → F
  pub atr : ℕ → Frame F → F
  pub macd_line : ℕ → ℕ → ℕ → Frame F → ℕ → F
  pub macd_signal : ℕ → ℕ → ℕ → Frame F → ℕ → F
  pub bb_upper : ℕ → F → Frame F → ℕ → F
  pub bb_middle : ℕ → F → Frame F → ℕ → F
  pub bb_lower : ℕ → F → Frame F → ℕ → F
  pub stoch_k : ℕ → ℕ → Frame F → ℕ → F
  pub stoch_d : ℕ → ℕ → Frame F → ℕ → F
  pub adx : ℕ → Frame F → ℕ → F
  pub plus_di : ℕ → Frame F → F
  pub minus_di : ℕ → Frame F → F
  -- `rolling(n).max()` of the highs and `rolling(n).min()` of the lows, in the last row
  pub highest : ℕ → Frame F → F
  pub lowest : ℕ → Frame F → F
  -- `Series.min`
  pub series_min : List F → F

-- `{x:.kf}`, `{x}` and `{n}`
pub record Format (F : Type 0) : Type 0 where
  pub fixed : ℕ → F → String
  pub repr : F → String
  pub int : ℕ → String

pub record Levels (F : Type 0) : Type 0 where
  pub atr_period : ℕ
  pub atr_sl_mult : F
  pub atr_tp_mult : F

-- What a strategy is made and called with, besides its own arguments and the frame.
pub record Context (F : Type 0) : Type 0 where
  pub ind : Indicators F
  pub fmt : Format F
  pub symbol : String
  -- `Timestamp.now()`
  pub now : ℕ
  pub levels : Levels F

-- A strategy with the arguments that it is made with, besides the symbol and the levels.
pub data AnyStrategy (F : Type 0) : Type 0 where
  -- the fast and the slow period
  ma_crossover : ℕ → ℕ → AnyStrategy F
  -- the period, oversold, overbought
  rsi_mean_reversion : ℕ → F → F → AnyStrategy F
  donchian_breakout : ℕ → AnyStrategy F
  -- fast, slow and signal period
  macd_cross : ℕ → ℕ → ℕ → AnyStrategy F
  -- the period and the deviations of the bands, the period of the RSI, its low and its high
  bollinger_bounce : ℕ → F → ℕ → F → F → AnyStrategy F
  -- the period and the deviations of the bands, the lookback
  bollinger_squeeze : ℕ → F → ℕ → AnyStrategy F
  -- the periods of %K and %D, oversold, overbought
  stochastic_reversal : ℕ → ℕ → F → F → AnyStrategy F
  triple_ma_alignment : ℕ → ℕ → ℕ → AnyStrategy F
  inside_bar_breakout : AnyStrategy F
  engulfing_pattern : ℕ → AnyStrategy F
  -- the fast period, the period of the filter, `touch_atr`
  ema_pullback : ℕ → ℕ → F → AnyStrategy F
  -- the period and the threshold of the ADX, the lookback
  adx_breakout : ℕ → F → ℕ → AnyStrategy F

abbrev pub max_ℕ : ℕ → ℕ → ℕ
max_ℕ a b = if ltb a b then b else a

abbrev pub texts : List String → String
texts [] = ""
texts (t ∷ ts) = concat t (texts ts)

module _ {F : Type 0} ⦃f : Float F⦄ where
  open f use {nought, add, sub, mul, abs, lt, le, lit}

  -- What the constructors refuse.
  pub construct : AnyStrategy F → Result (AnyStrategy F)
  construct (ma_crossover fast slow) =
      raise_if (leb slow fast) Raised.value_error >> ok (ma_crossover fast slow)
  construct (donchian_breakout n) =
      raise_if (ltb n 2) Raised.value_error >> ok (donchian_breakout n)
  construct (rsi_mean_reversion n low high) =
      raise_if (not (lt nought low && lt low high && lt high (lit 100 0))) Raised.value_error
      >> ok (rsi_mean_reversion n low high)
  construct s = ok s

  -- The first of two conditions that holds, or neither.
  abbrev pub first_of : Bool → Signal F → Bool → Signal F → Signal F → Signal F
  first_of up buy down sell otherwise = if up then buy else if down then sell else otherwise

  abbrev pub crossed : F → F → F → F → Bool
  crossed prev last prev' last' = le prev prev' && lt last' last

  module _ (x : Context F) where
    open x use {ind, fmt, symbol, now, levels}
    open levels use {atr_period, atr_sl_mult, atr_tp_mult}

    abbrev pub hold : Frame F → String → Signal F
    hold [] reason = record {
      type = SignalType.hold;
      symbol = symbol;
      timestamp = now;
      price = nought;
      stop_loss = none;
      take_profit = none;
      reason = reason;
    }
    hold ((ts, bar) ∷ earlier) reason = record {
      type = SignalType.hold;
      symbol = symbol;
      timestamp = ts;
      price = bar.close_price;
      stop_loss = none;
      take_profit = none;
      reason = reason;
    }

    abbrev pub entry : SignalType → Row F → F → F → String → Signal F
    entry side (ts, bar) stop target reason = record {
      type = side;
      symbol = symbol;
      timestamp = ts;
      price = bar.close_price;
      stop_loss = some stop;
      take_profit = some target;
      reason = reason;
    }

    -- Stop and target by multiples of the last ATR.
    abbrev pub long : Row F → F → String → Signal F
    long row last_atr reason =
        let c = row.1.close_price in
        entry SignalType.buy row (sub c (mul atr_sl_mult last_atr))
          (add c (mul atr_tp_mult last_atr)) reason

    abbrev pub short : Row F → F → String → Signal F
    short row last_atr reason =
        let c = row.1.close_price in
        entry SignalType.sell row (add c (mul atr_sl_mult last_atr))
          (sub c (mul atr_tp_mult last_atr)) reason

    -- How many bars a strategy needs.
    abbrev pub bars_needed : AnyStrategy F → ℕ
    bars_needed (ma_crossover fast slow) = slow + 2
    bars_needed (rsi_mean_reversion n low high) = max_ℕ n atr_period + 2
    bars_needed (donchian_breakout n) = n + atr_period + 2
    bars_needed (macd_cross fast slow signal_period) = max_ℕ (slow + signal_period) 200 + 2
    bars_needed (bollinger_bounce n num_std m low high) = n + 2
    bars_needed (bollinger_squeeze n num_std lookback) = n + lookback + 2
    bars_needed (stochastic_reversal k d low high) = k + d + 2
    bars_needed (triple_ma_alignment fast mid slow) = slow + 2
    bars_needed inside_bar_breakout = atr_period + 3
    bars_needed (engulfing_pattern n) = max_ℕ n atr_period + 2
    bars_needed (ema_pullback fast trend_filter touch_atr) = trend_filter + 2
    bars_needed (adx_breakout n threshold lookback) = max_ℕ (n * 2) lookback + 2
