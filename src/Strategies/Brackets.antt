-- ===== src/Strategies/Brackets.antt =====
-- The levels of the signals of src/strategies/: nine of the twelve set both by multiples of the ATR.
use forex_ea.Prelude.{
  ◌≡◌, refl, Bool, true, false, Option, none, some, ◌∷◌, String, length, ltb, if◌then◌else◌,
}
use forex_ea.Float.{Float, ◌≼◌, IsNumber}
use forex_ea.Execution.{SignalType, Signal}
use forex_ea.Backtest.{Row}
use forex_ea.Strategies.{
  Frame, Levels, Context, AnyStrategy, hold, long, short, first_of, bars_needed,
}
use forex_ea.Strategies.Generate.{decide, generate_signal}

-- Products and sums of floats that are not negative, as rounding keeps them: true of IEEE 754 where the
-- result is a number.
pub record IsSigned (F : Type 0) ⦃f : Float F⦄ : Type 0 where
  pub nought-le-mul :
      (x y : F) → f.nought ≼ x → f.nought ≼ y → IsNumber (f.mul x y) → f.nought ≼ f.mul x y
  pub sub-le : (x y : F) → f.nought ≼ y → IsNumber (f.sub x y) → f.sub x y ≼ x
  pub le-add : (x y : F) → f.nought ≼ y → IsNumber (f.add x y) → x ≼ f.add x y

-- The strategies whose levels both come from the ATR.
abbrev pub IsAtrBased : {F : Type 0} → AnyStrategy F → Type 0
IsAtrBased (AnyStrategy.bollinger_bounce n num_std m low high) = ⊥
IsAtrBased AnyStrategy.inside_bar_breakout = ⊥
IsAtrBased (AnyStrategy.engulfing_pattern n) = ⊥
IsAtrBased _ = Unit

module _ {F : Type 0} ⦃f : Float F⦄ where
  open f use {nought, add, sub, mul}

  -- The multiples and the ATR are not negative, and the levels that they give at a price are numbers.
  pub record IsPriced (levels : Levels F) (last_atr : F) (c : F) : Type 0 where
    pub sl_sign : nought ≼ levels.atr_sl_mult
    pub tp_sign : nought ≼ levels.atr_tp_mult
    pub atr_sign : nought ≼ last_atr
    pub sl_number : IsNumber (mul levels.atr_sl_mult last_atr)
    pub tp_number : IsNumber (mul levels.atr_tp_mult last_atr)
    pub numbers :
        IsNumber (sub c (mul levels.atr_sl_mult last_atr))
        × IsNumber (add c (mul levels.atr_sl_mult last_atr))
        × IsNumber (sub c (mul levels.atr_tp_mult last_atr))
        × IsNumber (add c (mul levels.atr_tp_mult last_atr))

  -- The levels of a signal, by its type, around its price.
  abbrev pub IsAround : SignalType → F → Option F → Option F → Type 0
  IsAround SignalType.buy c (some stop) (some target) = (stop ≼ c) × (c ≼ target)
  IsAround SignalType.sell c (some stop) (some target) = (c ≼ stop) × (target ≼ c)
  IsAround SignalType.hold c none none = Unit
  IsAround _ c _ _ = ⊥

  abbrev pub IsBracketed : String → Row F → Signal F → Type 0
  IsBracketed symbol (ts, bar) s =
      (s.symbol ≡ symbol)
      × (s.timestamp ≡ ts)
      × (s.price ≡ bar.close_price)
      × IsAround s.type s.price s.stop_loss s.take_profit

  module _ (laws : IsSigned F) (x : Context F) (row : Row F) where
    open x use {ind, symbol, levels}

    if-IsBracketed :
        (b : Bool) (s t : Signal F)
        → IsBracketed symbol row s
        → IsBracketed symbol row t
        → IsBracketed symbol row (if b then s else t)
    if-IsBracketed true s t h k = h
    if-IsBracketed false s t h k = k

    held :
        (earlier : Frame F) (reason : String)
        → IsBracketed symbol row (hold x (row ∷ earlier) reason)
    held earlier reason = (refl, refl, refl, tt)

    module _ (earlier : Frame F)
        (priced : IsPriced levels
          (ind.atr levels.atr_period (row ∷ earlier))
          row.1.close_price) where
      abbrev last_atr : F
      last_atr = ind.atr levels.atr_period (row ∷ earlier)

      longs : (reason : String) → IsBracketed symbol row (long x row last_atr reason)
      longs reason =
          let below =
            laws.sub-le row.1.close_price (mul levels.atr_sl_mult last_atr)
              (laws.nought-le-mul _ _ priced.sl_sign priced.atr_sign priced.sl_number)
              priced.numbers.0 in
          let above =
            laws.le-add row.1.close_price (mul levels.atr_tp_mult last_atr)
              (laws.nought-le-mul _ _ priced.tp_sign priced.atr_sign priced.tp_number)
              priced.numbers.3 in
          (refl, refl, refl, (below, above))

      shorts : (reason : String) → IsBracketed symbol row (short x row last_atr reason)
      shorts reason =
          let above =
            laws.le-add row.1.close_price (mul levels.atr_sl_mult last_atr)
              (laws.nought-le-mul _ _ priced.sl_sign priced.atr_sign priced.sl_number)
              priced.numbers.1 in
          let below =
            laws.sub-le row.1.close_price (mul levels.atr_tp_mult last_atr)
              (laws.nought-le-mul _ _ priced.tp_sign priced.atr_sign priced.tp_number)
              priced.numbers.2 in
          (refl, refl, refl, (above, below))

      either :
          (up down : Bool) (buys sells holds : String)
          → IsBracketed symbol row (
              first_of up
                (long x row last_atr buys)
                down
                (short x row last_atr sells)
                (hold x (row ∷ earlier) holds))
      either true down buys sells holds = longs buys
      either false true buys sells holds = shorts sells
      either false false buys sells holds = held earlier holds

      decide-IsBracketed :
          (s : AnyStrategy F) → IsAtrBased s → IsBracketed symbol row (decide x s row earlier)
      unfolding decide
      decide-IsBracketed (AnyStrategy.ma_crossover fast slow) h = either _ _ _ _ _
      decide-IsBracketed (AnyStrategy.rsi_mean_reversion n low high) h = either _ _ _ _ _
      decide-IsBracketed (AnyStrategy.donchian_breakout n) h = either _ _ _ _ _
      decide-IsBracketed (AnyStrategy.macd_cross fast slow signal_period) h = either _ _ _ _ _
      decide-IsBracketed (AnyStrategy.bollinger_bounce n num_std m low high) h = absurd h
      decide-IsBracketed (AnyStrategy.bollinger_squeeze n num_std lookback) h =
          if-IsBracketed _ _ _ (either _ _ _ _ _) (refl, refl, refl, tt)
      decide-IsBracketed (AnyStrategy.stochastic_reversal k d low high) h = either _ _ _ _ _
      decide-IsBracketed (AnyStrategy.triple_ma_alignment fast mid slow) h = either _ _ _ _ _
      decide-IsBracketed AnyStrategy.inside_bar_breakout h = absurd h
      decide-IsBracketed (AnyStrategy.engulfing_pattern n) h = absurd h
      decide-IsBracketed (AnyStrategy.ema_pullback fast trend_filter touch_atr) h = either _ _ _ _ _
      decide-IsBracketed (AnyStrategy.adx_breakout n threshold lookback) h =
          if-IsBracketed _ _ _ (either _ _ _ _ _) (refl, refl, refl, tt)

      -- Whatever the indicators say: a signal of a strategy that sets its levels by the ATR carries the
      -- strategy's symbol and the time and the close of the last bar; a buy has its stop not above this
      -- price and its target not below it, a sell the reverse, and a hold has neither; provided the
      -- multiples and the ATR are not negative and the levels are numbers.
      pub generate_signal-IsBracketed :
          (s : AnyStrategy F)
          → IsAtrBased s
          → IsBracketed symbol row (generate_signal x s (row ∷ earlier))
      unfolding generate_signal
      generate_signal-IsBracketed s h =
          if-IsBracketed (ltb (length (row ∷ earlier)) (bars_needed x s)) _ _
            (held earlier "insufficient bars") (decide-IsBracketed s h)
