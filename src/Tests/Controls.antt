-- ===== src/Tests/Controls.antt =====
-- The switches at concrete tables.
use forex_ea.Prelude.{◌≡◌, refl, true, false, none, List, [], ◌∷◌}
use text.Mathlib.TextEquality.{eq_iff}
use forex_ea.Table.{string_eq, pair_eq}
use forex_ea.Execution.{SignalType}
use forex_ea.Controls.KillSwitch.{KillWrite, after_writes, activate, clear, is_active, kill_latch}
use forex_ea.Controls.Toggles.{ToggleTable, toggle, IsToggled, toggle-IsToggled}
use forex_ea.Controls.SignalDedup.{Memory}

abbrev again : List KillWrite
again = KillWrite.triggered 9 "ben" "panic stop" ∷ []

kill_latch_example :
    (is_active (after_writes (activate 5 "ann" "stop trading" none) again) ≡ true)
    × ((clear 12 "ops" none).0 ≡ is_active none)
    × (is_active (clear 12 "ops" none).1 ≡ false)
kill_latch_example = kill_latch 5 "ann" "stop trading" none again 12 "ops" refl

abbrev toggles : ToggleTable
toggles =
    ("macd_cross", record { enabled = false; mode = "signal"; user_copyable = true })
    ∷ ("ema_pullback", record { enabled = true; mode = "execute"; user_copyable = false })
    ∷ []

toggle-IsToggled_example :
    IsToggled "macd_cross" "ema_pullback" toggles (toggle "macd_cross" toggles)
toggle-IsToggled_example =
    toggle-IsToggled "macd_cross" "ema_pullback" toggles
      (λ e. cc ((eq_iff "macd_cross" "ema_pullback").1 e))

abbrev memories : List Memory
memories =
    record { strategy = "macd_cross"; symbol = "EURUSD"; bar_ts = 60; side = SignalType.buy }
    ∷ record { strategy = "macd_cross"; symbol = "GBPUSD"; bar_ts = 120; side = SignalType.sell }
    ∷ []
