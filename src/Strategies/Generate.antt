-- ===== src/Strategies/Generate.antt =====
-- `generate_signal` of every strategy of src/strategies/, by its registry.
use forex_ea.Prelude.{[], ◌∷◌, length, ltb, if◌then◌else◌}
use forex_ea.Float.{Float}
use forex_ea.Execution.{Signal}
use forex_ea.Backtest.{Row}
use forex_ea.Strategies.{Frame, Context, AnyStrategy, hold, bars_needed}
use forex_ea.Strategies.Averages.{
  ma_crossover_signal, macd_cross_signal, triple_ma_alignment_signal, ema_pullback_signal,
}
use forex_ea.Strategies.Ranges.{
  rsi_mean_reversion_signal, bollinger_bounce_signal, bollinger_squeeze_signal,
  stochastic_reversal_signal,
}
use forex_ea.Strategies.Breakouts.{
  donchian_breakout_signal, inside_bar_signal, engulfing_signal, adx_breakout_signal,
}
use forex_ea.Strategies.{
  ma_crossover, rsi_mean_reversion, donchian_breakout, macd_cross, bollinger_bounce,
  bollinger_squeeze, stochastic_reversal, triple_ma_alignment, inside_bar_breakout,
  engulfing_pattern, ema_pullback, adx_breakout,
}

module _ {F : Type 0} ⦃f : Float F⦄ (x : Context F) where
  open f use {nought, add, sub, mul, abs, lt, le, lit}
  open x use {ind, fmt, symbol, now, levels}
  open levels use {atr_period, atr_sl_mult, atr_tp_mult}

  unfoldable pub decide : AnyStrategy F → Row F → Frame F → Signal F
  decide (ma_crossover fast slow) row earlier = ma_crossover_signal x fast slow row earlier
  decide (rsi_mean_reversion n oversold overbought) row earlier =
      rsi_mean_reversion_signal x n oversold overbought row earlier
  decide (donchian_breakout n) row earlier = donchian_breakout_signal x n row earlier
  decide (macd_cross fast slow signal_period) row earlier =
      macd_cross_signal x fast slow signal_period row earlier
  decide (bollinger_bounce n num_std m rsi_low rsi_high) row earlier =
      bollinger_bounce_signal x n num_std m rsi_low rsi_high row earlier
  decide (bollinger_squeeze n num_std lookback) row earlier =
      bollinger_squeeze_signal x n num_std lookback row earlier
  decide (stochastic_reversal k d oversold overbought) row earlier =
      stochastic_reversal_signal x k d oversold overbought row earlier
  decide (triple_ma_alignment fast mid slow) row earlier =
      triple_ma_alignment_signal x fast mid slow row earlier
  decide inside_bar_breakout row earlier = inside_bar_signal x row earlier
  decide (engulfing_pattern n) row earlier = engulfing_signal x n row earlier
  decide (ema_pullback fast trend_filter touch_atr) row earlier =
      ema_pullback_signal x fast trend_filter touch_atr row earlier
  decide (adx_breakout n threshold lookback) row earlier =
      adx_breakout_signal x n threshold lookback row earlier

  unfoldable pub generate_signal : AnyStrategy F → Frame F → Signal F
  unfolding decide
  generate_signal s [] = hold x [] "insufficient bars"
  generate_signal s (row ∷ earlier) =
      if ltb (length (row ∷ earlier)) (bars_needed x s)
      then hold x (row ∷ earlier) "insufficient bars"
      else decide s row earlier
