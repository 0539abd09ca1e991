-- ===== src/Strategies/Averages.antt =====
-- The strategies on moving averages: src/strategies/ma_crossover.py, and MACD, triple MA and pullback of
-- src/strategies/more.py.
use forex_ea.Prelude.{ℕ, not, ◌&&◌, [], ◌∷◌, String}
use forex_ea.Float.{Float}
use forex_ea.Execution.{Signal}
use forex_ea.Backtest.{Row}
use forex_ea.Strategies.{Frame, Context, texts, hold, long, short, first_of, crossed}

module _ {F : Type 0} ⦃f : Float F⦄ (x : Context F) where
  open f use {nought, add, sub, mul, abs, lt, le, lit}
  open x use {ind, fmt, symbol, now, levels}
  open levels use {atr_period, atr_sl_mult, atr_tp_mult}

  -- What each strategy makes of enough bars.
  abbrev pub ma_crossover_signal : ℕ → ℕ → Row F → Frame F → Signal F
  ma_crossover_signal fast slow row earlier =
      let ohlc = row ∷ earlier in
      let periods = λ (how : String). texts ("EMA" ∷ fmt.int fast ∷ how ∷ fmt.int slow ∷ []) in
      first_of
        (crossed (ind.ema fast ohlc 1) (ind.ema fast ohlc 0) (ind.ema slow ohlc 1)
          (ind.ema slow ohlc 0))
        (long x row (ind.atr atr_period ohlc) (periods " crossed above EMA"))
        (crossed (ind.ema slow ohlc 1) (ind.ema slow ohlc 0) (ind.ema fast ohlc 1)
          (ind.ema fast ohlc 0))
        (short x row (ind.atr atr_period ohlc) (periods " crossed below EMA"))
        (hold x ohlc "no crossover")

  abbrev pub macd_cross_signal : ℕ → ℕ → ℕ → Row F → Frame F → Signal F
  macd_cross_signal fast slow signal_period row earlier =
      let ohlc = row ∷ earlier in
      let line = ind.macd_line fast slow signal_period ohlc in
      let sig = ind.macd_signal fast slow signal_period ohlc in
      let ema200 = ind.ema 200 ohlc 0 in
      first_of (crossed (line 1) (line 0) (sig 1) (sig 0) && lt ema200 row.1.close_price)
        (long x row (ind.atr atr_period ohlc) "MACD crossed above signal line above EMA200")
        (crossed (sig 1) (sig 0) (line 1) (line 0) && lt row.1.close_price ema200)
        (short x row (ind.atr atr_period ohlc) "MACD crossed below signal line below EMA200")
        (hold x ohlc "no MACD cross with trend")

  abbrev pub triple_ma_alignment_signal : ℕ → ℕ → ℕ → Row F → Frame F → Signal F
  triple_ma_alignment_signal fast mid slow row earlier =
      let ohlc = row ∷ earlier in
      let c = row.1.close_price in
      let f_now = ind.ema fast ohlc 0 in
      let m_now = ind.ema mid ohlc 0 in
      let s_now = ind.ema slow ohlc 0 in
      first_of
        (lt m_now f_now
          && lt s_now m_now
          && lt f_now c
          && not (lt (ind.ema mid ohlc 1) (ind.ema fast ohlc 1)))
        (long x row (ind.atr atr_period ohlc) "EMA8 > EMA21 > EMA55 stacked bullish")
        (lt f_now m_now
          && lt m_now s_now
          && lt c f_now
          && not (lt (ind.ema fast ohlc 1) (ind.ema mid ohlc 1)))
        (short x row (ind.atr atr_period ohlc) "EMA8 < EMA21 < EMA55 stacked bearish")
        (hold x ohlc "EMAs not freshly aligned")

  abbrev pub ema_pullback_signal : ℕ → ℕ → F → Row F → Frame F → Signal F
  ema_pullback_signal fast trend_filter touch_atr row earlier =
      let ohlc = row ∷ earlier in
      let c = row.1.close_price in
      let e_fast = ind.ema fast ohlc 0 in
      let e_trend = ind.ema trend_filter ohlc 0 in
      let e_trend_prev = ind.ema trend_filter ohlc 4 in
      let last_atr = ind.atr atr_period ohlc in
      let touched = λ (level : F). le (abs (sub level e_fast)) (mul touch_atr last_atr) in
      first_of (lt e_trend c && lt e_trend_prev e_trend && touched row.1.low && lt e_fast c)
        (long x row last_atr (texts ("Pullback to EMA" ∷ fmt.int fast ∷ " in uptrend" ∷ [])))
        (lt c e_trend && lt e_trend e_trend_prev && touched row.1.high && lt c e_fast)
        (short x row last_atr (texts ("Pullback to EMA" ∷ fmt.int fast ∷ " in downtrend" ∷ [])))
        (hold x ohlc "no pullback in trend")
