-- ===== src/Strategies/Ranges.antt =====
-- The strategies on oscillators and bands: src/strategies/rsi_mean_reversion.py, and the Bollinger bands and
-- the stochastic of src/strategies/more.py.
use forex_ea.Prelude.{ℕ, zero, suc, ◌&&◌, List, [], ◌∷◌, String, if◌then◌else◌}
use forex_ea.Float.{Float}
use forex_ea.Execution.{SignalType, Signal}
use forex_ea.Backtest.{Row}
use forex_ea.Strategies.{Frame, Context, texts, hold, entry, long, short, first_of, crossed}

module _ {F : Type 0} ⦃f : Float F⦄ (x : Context F) where
  open f use {nought, add, sub, mul, abs, lt, le, lit}
  open x use {ind, fmt, symbol, now, levels}
  open levels use {atr_period, atr_sl_mult, atr_tp_mult}

  -- The widths of the bands, from the row that many rows back to the one before the last.
  abbrev pub widths : ℕ → F → Frame F → ℕ → List F
  widths n num_std ohlc zero = []
  widths n num_std ohlc (suc back) =
      sub (ind.bb_upper n num_std ohlc (suc back)) (ind.bb_lower n num_std ohlc (suc back))
      ∷ widths n num_std ohlc back

  abbrev pub rsi_mean_reversion_signal : ℕ → F → F → Row F → Frame F → Signal F
  rsi_mean_reversion_signal n oversold overbought row earlier =
      let ohlc = row ∷ earlier in
      let last_rsi = ind.rsi n ohlc 0 in
      let prev_rsi = ind.rsi n ohlc 1 in
      let moves = texts (" (" ∷ fmt.fixed 1 prev_rsi ∷ "→" ∷ fmt.fixed 1 last_rsi ∷ ")" ∷ []) in
      first_of (le prev_rsi oversold && lt oversold last_rsi)
        (long x row (ind.atr atr_period ohlc)
          (texts ("RSI crossed up through " ∷ fmt.repr oversold ∷ moves ∷ [])))
        (le overbought prev_rsi && lt last_rsi overbought)
        (short x row (ind.atr atr_period ohlc)
          (texts ("RSI crossed down through " ∷ fmt.repr overbought ∷ moves ∷ [])))
        (hold x ohlc (texts ("RSI at " ∷ fmt.fixed 1 last_rsi ∷ [])))

  abbrev pub bollinger_bounce_signal : ℕ → F → ℕ → F → F → Row F → Frame F → Signal F
  bollinger_bounce_signal n num_std m rsi_low rsi_high row earlier =
      let ohlc = row ∷ earlier in
      let c = row.1.close_price in
      let offset = mul atr_sl_mult (ind.atr atr_period ohlc) in
      let upper = ind.bb_upper n num_std ohlc 0 in
      let lower = ind.bb_lower n num_std ohlc 0 in
      let middle = ind.bb_middle n num_std ohlc 0 in
      let tagged = λ (band : String) (level : F). texts (
        "Tagged "
        ∷ band
        ∷ " BB ("
        ∷ fmt.fixed 5 level
        ∷ "), RSI "
        ∷ fmt.fixed 0 (ind.rsi m ohlc 0)
        ∷ []) in
      first_of (le row.1.low lower && lt (ind.rsi m ohlc 0) rsi_low)
        (entry x SignalType.buy row (sub c offset) middle (tagged "lower" lower))
        (le upper row.1.high && lt rsi_high (ind.rsi m ohlc 0))
        (entry x SignalType.sell row (add c offset) middle (tagged "upper" upper))
        (hold x ohlc "no BB bounce setup")

  abbrev pub bollinger_squeeze_signal : ℕ → F → ℕ → Row F → Frame F → Signal F
  bollinger_squeeze_signal n num_std lookback row earlier =
      let ohlc = row ∷ earlier in
      let upper = ind.bb_upper n num_std ohlc 0 in
      let lower = ind.bb_lower n num_std ohlc 0 in
      let width = sub (ind.bb_upper n num_std ohlc 1) (ind.bb_lower n num_std ohlc 1) in
      let recent_min_width = ind.series_min (widths n num_std ohlc lookback) in
      if le width (mul recent_min_width (lit 105 2))
      then first_of (lt upper row.1.close_price)
          (long x row (ind.atr atr_period ohlc)
            (texts ("Squeeze breakout above " ∷ fmt.fixed 5 upper ∷ [])))
          (lt row.1.close_price lower)
          (short x row (ind.atr atr_period ohlc)
            (texts ("Squeeze breakout below " ∷ fmt.fixed 5 lower ∷ [])))
          (hold x ohlc "squeezed but no break yet")
      else hold x ohlc "no prior squeeze"

  abbrev pub stochastic_reversal_signal : ℕ → ℕ → F → F → Row F → Frame F → Signal F
  stochastic_reversal_signal k d oversold overbought row earlier =
      let ohlc = row ∷ earlier in
      let pk = ind.stoch_k k d ohlc in
      let pd = ind.stoch_d k d ohlc in
      first_of (crossed (pk 1) (pk 0) (pd 1) (pd 0) && lt (pk 1) oversold)
        (long x row (ind.atr atr_period ohlc)
          (texts ("Stoch %K crossed above %D from oversold (" ∷ fmt.fixed 0 (pk 1) ∷ ")" ∷ [])))
        (crossed (pd 1) (pd 0) (pk 1) (pk 0) && lt overbought (pk 1))
        (short x row (ind.atr atr_period ohlc)
          (texts ("Stoch %K crossed below %D from overbought (" ∷ fmt.fixed 0 (pk 1) ∷ ")" ∷ [])))
        (hold x ohlc "no stoch reversal")
