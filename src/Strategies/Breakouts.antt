-- ===== src/Strategies/Breakouts.antt =====
-- The strategies on bars and channels: src/strategies/breakout.py, and the inside bar, engulfing and ADX of
-- src/strategies/more.py.
use forex_ea.Prelude.{ℕ, Bool, ◌&&◌, [], ◌∷◌, String, if◌then◌else◌}
use forex_ea.Float.{Float}
use forex_ea.Execution.{SignalType, Signal, Bar}
use forex_ea.Backtest.{Row}
use forex_ea.Strategies.{Frame, Context, texts, hold, entry, long, short, first_of}

module _ {F : Type 0} ⦃f : Float F⦄ where
  open f use {sub, abs, lt, le}

  abbrev pub body : Bar F → F
  body bar = abs (sub bar.close_price bar.open_price)

  abbrev pub bullish_engulf : Bar F → Bar F → Bool
  bullish_engulf prev cur =
      lt prev.close_price prev.open_price
      && lt cur.open_price cur.close_price
      && le cur.open_price prev.close_price
      && le prev.open_price cur.close_price
      && lt (body prev) (body cur)

  abbrev pub bearish_engulf : Bar F → Bar F → Bool
  bearish_engulf prev cur =
      lt prev.open_price prev.close_price
      && lt cur.close_price cur.open_price
      && le prev.close_price cur.open_price
      && le cur.close_price prev.open_price
      && lt (body prev) (body cur)

module _ {F : Type 0} ⦃f : Float F⦄ (x : Context F) where
  open f use {nought, add, sub, mul, abs, lt, le, lit}
  open x use {ind, fmt, symbol, now, levels}
  open levels use {atr_period, atr_sl_mult, atr_tp_mult}

  abbrev pub donchian_breakout_signal : ℕ → Row F → Frame F → Signal F
  donchian_breakout_signal n row earlier =
      let ohlc = row ∷ earlier in
      let upper = ind.highest n earlier in
      let lower = ind.lowest n earlier in
      first_of (lt upper row.1.high)
        (long x row (ind.atr atr_period ohlc)
          (texts ("Close broke above " ∷ fmt.int n ∷ "-bar high (" ∷ fmt.fixed 5 upper ∷ ")" ∷ [])))
        (lt row.1.low lower)
        (short x row (ind.atr atr_period ohlc)
          (texts ("Close broke below " ∷ fmt.int n ∷ "-bar low (" ∷ fmt.fixed 5 lower ∷ ")" ∷ [])))
        (hold x ohlc
          (texts ("inside channel [" ∷ fmt.fixed 5 lower ∷ ", " ∷ fmt.fixed 5 upper ∷ "]" ∷ [])))

  abbrev pub inside_bar_signal : Row F → Frame F → Signal F
  inside_bar_signal row ((t₁, inside) ∷ (t₂, mother) ∷ older) =
      let ohlc = row ∷ (t₁, inside) ∷ (t₂, mother) ∷ older in
      let c = row.1.close_price in
      let last_atr = ind.atr atr_period ohlc in
      let margin = mul (lit 1 1) last_atr in
      if lt inside.high mother.high && lt mother.low inside.low
      then first_of (lt mother.high row.1.high)
          (entry x SignalType.buy row (sub mother.low margin) (add c (mul atr_tp_mult last_atr))
            (texts ("Inside-bar breakout above " ∷ fmt.fixed 5 mother.high ∷ [])))
          (lt row.1.low mother.low)
          (entry x SignalType.sell row (add mother.high margin) (sub c (mul atr_tp_mult last_atr))
            (texts ("Inside-bar breakdown below " ∷ fmt.fixed 5 mother.low ∷ [])))
          (hold x ohlc "inside bar still compressing")
      else hold x ohlc "no inside bar pattern"
  inside_bar_signal row earlier = hold x (row ∷ earlier) "insufficient bars"

  abbrev pub engulfing_signal : ℕ → Row F → Frame F → Signal F
  engulfing_signal n row [] = hold x (row ∷ []) "insufficient bars"
  engulfing_signal n row ((t, prev) ∷ older) =
      let ohlc = row ∷ (t, prev) ∷ older in
      let cur = row.1 in
      let last_atr = ind.atr atr_period ohlc in
      let margin = mul (lit 1 1) last_atr in
      let ema_val = ind.ema n ohlc 0 in
      first_of (bullish_engulf prev cur && lt cur.close_price ema_val)
        (entry x SignalType.buy row (sub cur.low margin)
          (add cur.close_price (mul atr_tp_mult last_atr)) "Bullish engulfing below EMA50")
        (bearish_engulf prev cur && lt ema_val cur.close_price)
        (entry x SignalType.sell row (add cur.high margin)
          (sub cur.close_price (mul atr_tp_mult last_atr)) "Bearish engulfing above EMA50")
        (hold x ohlc "no engulfing pattern")

  abbrev pub adx_breakout_signal : ℕ → F → ℕ → Row F → Frame F → Signal F
  adx_breakout_signal n threshold lookback row earlier =
      let ohlc = row ∷ earlier in
      let adx_now = ind.adx n ohlc 0 in
      let plus = ind.plus_di n ohlc in
      let minus = ind.minus_di n ohlc in
      let upper = ind.highest lookback earlier in
      let lower = ind.lowest lookback earlier in
      let confirmed = λ (what : String) (level : F).
        texts ("ADX " ∷ fmt.fixed 0 adx_now ∷ what ∷ fmt.fixed 5 level ∷ []) in
      if le threshold adx_now && lt (ind.adx n ohlc 2) adx_now
      then first_of (lt upper row.1.high && lt minus plus)
          (long x row (ind.atr atr_period ohlc) (confirmed " confirmed breakout above " upper))
          (lt row.1.low lower && lt plus minus)
          (short x row (ind.atr atr_period ohlc) (confirmed " confirmed breakdown below " lower))
          (hold x ohlc "ADX strong but no break")
      else hold x ohlc (texts ("ADX " ∷ fmt.fixed 0 adx_now ∷ " not strong enough" ∷ []))
