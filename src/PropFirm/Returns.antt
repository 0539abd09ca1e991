-- ===== src/PropFirm/Returns.antt =====
-- When an observation of src/propfirm/guard.py comes to its end without an exception.
use forex_ea.Prelude.{ℕ, ◌≡◌, ◌≢◌, false, none, some, arith, inl, inr, Option-cases}
use forex_ea.Float.{Float}
use forex_ea.Execution.{date}
use forex_ea.PropFirm.{
  PropFirmPolicy, PropFirmState, Draft, observe, roll_day, track_peak, check_daily, check_total,
  baseline,
}
use forex_ea.PropFirm.Kill.{peaked, track_peak-baseline, check_daily-rest}

module _ {F : Type 0} ⦃f : Float F⦄ where
  open f use {nought, eq}

  check_daily-returns :
      (pol : PropFirmPolicy F) (balance : F) (d : Draft F)
      → eq d.state.daily_start_equity nought ≡ false
      → check_daily pol balance d ≢ none
  unfolding check_daily
  check_daily-returns pol balance d h = λ e. ground (arith, e)

  check_total-returns :
      (pol : PropFirmPolicy F) (balance : F) (d : Draft F)
      → eq (baseline pol d.state) nought ≡ false
      → check_total pol balance d ≢ none
  unfolding check_total
  check_total-returns pol balance d h = λ e. ground (arith, e)

  track_peak-daily_start_equity :
      (balance : F) (day : ℕ) (s : PropFirmState F)
      → eq s.daily_start_equity nought ≡ false
      → eq balance nought ≡ false
      → eq
          (track_peak balance
            (roll_day day balance (record { state = s; dirty = false }))).state.daily_start_equity
          nought
        ≡ false
  unfolding track_peak roll_day
  track_peak-daily_start_equity balance day s h k = ground arith

  -- An observation returns, if the balance, the equity at the start of the day and the baseline of
  -- the drawdown are not 0.
  pub observe-returns :
      (pol : PropFirmPolicy F) (now : ℕ) (balance : F) (s : PropFirmState F)
      → eq balance nought ≡ false
      → eq s.daily_start_equity nought ≡ false
      → eq (baseline pol (peaked balance s)) nought ≡ false
      → (observe pol now balance (some s)).0 ≢ none
  unfolding observe
  observe-returns pol now balance s funded opened base =
      let d₁ : Draft F =
        track_peak balance (roll_day (date now) balance (record { state = s; dirty = false })) in
      let h₁ = track_peak-baseline pol (date now) balance s in
      elim (Option-cases (check_daily pol balance d₁)) [
        | inl raised ↦ absurd (
            check_daily-returns pol balance d₁
              (track_peak-daily_start_equity balance (date now) s opened funded) raised)
        | inr (d₂, e₂) ↦
            let h₂ = check_daily-rest pol balance d₁ e₂ in
            elim (Option-cases (check_total pol balance d₂)) [
              | inl raised ↦
                  absurd (check_total-returns pol balance d₂ (rw (h₂.0, h₁.0) base) raised)
              | inr (d₃, e₃) ↦ rw (e₂, e₃) (ground arith)
            ]
      ]
