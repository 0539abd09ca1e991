-- ===== src/PropFirm/Window.antt =====
-- The daily window of src/propfirm/guard.py.
use forex_ea.Prelude.{
  ℕ, ◌≡◌, ◌≢◌, ◌⊎◌, Bool, true, false, none, some, List, [], ◌∷◌, arith, inl, inr, Option-cases,
  All,
}
use forex_ea.Float.{Float, ◌≺◌, ◌≼◌}
use forex_ea.Execution.{date}
use forex_ea.PropFirm.{
  PropFirmPolicy, PropFirmState, Store, Call, observed, opened, observe, check, note_trade_opened,
  after_calls, roll_day, track_peak, check_daily, check_total, Draft, breaches_daily, call_time,
}

module _ {F : Type 0} ⦃f : Float F⦄ where
  open f use {nought, sub, mul, lt, le}

  abbrev Halts : ℕ → PropFirmState F → Type 0
  Halts day s = (s.daily_start_date ≡ day) × (s.killed_today ≡ true)

  -- Trading is over for this day.
  abbrev pub IsHalted : ℕ → Store F → Type 0
  IsHalted day none = ⊥
  IsHalted day (some s) = Halts day s

  check_daily-Halts :
      (pol : PropFirmPolicy F) (balance : F) (day : ℕ) (d : Draft F) {d' : Draft F}
      → Halts day d.state
      → check_daily pol balance d ≡ some d'
      → Halts day d'.state
  unfolding check_daily
  check_daily-Halts pol balance day d h e = ground arith

  -- A breach sets the flag, and marks the draft for writing if it was not set.
  check_daily-trips :
      (pol : PropFirmPolicy F) (balance : F) (day : ℕ) (d : Draft F) {d' : Draft F}
      → d.state.daily_start_date ≡ day
      → breaches_daily pol d.state.daily_start_equity balance ≡ true
      → check_daily pol balance d ≡ some d'
      → Halts day d'.state × ((d.state.killed_today ≡ true) ⊎ (d'.dirty ≡ true))
  unfolding check_daily
  check_daily-trips pol balance day d h b e = ground arith

  check_total-Halts :
      (pol : PropFirmPolicy F) (balance : F) (day : ℕ) (d : Draft F) {d' : Draft F}
      → Halts day d.state
      → check_total pol balance d ≡ some d'
      → Halts day d'.state × (d.dirty ≡ true → d'.dirty ≡ true)
  unfolding check_total
  check_total-Halts pol balance day d h e = ground arith

  observe-IsHalted :
      (pol : PropFirmPolicy F) (now : ℕ) (balance : F) (store : Store F)
      → IsHalted (date now) store
      → IsHalted (date now) (observe pol now balance store).1
  unfolding observe
  observe-IsHalted pol now balance none h = absurd h
  observe-IsHalted pol now balance (some s) h =
      let d₁ =
        track_peak balance (roll_day (date now) balance (record { state = s; dirty = false })) in
      let h₁ : Halts (date now) d₁.state = ground arith in
      elim (Option-cases (check_daily pol balance d₁)) [
        | inl raised ↦ rw raised h
        | inr (d₂, e₂) ↦
            let h₂ = check_daily-Halts pol balance (date now) d₁ h₁ e₂ in
            elim (Option-cases (check_total pol balance d₂)) [
              | inl raised ↦ rw (e₂, raised) h
              | inr (d₃, e₃) ↦
                  let h₃ = check_total-Halts pol balance (date now) d₂ h₂ e₃ in
                  rw (e₂, e₃) (ground arith)
            ]
      ]

  observe-trips :
      (pol : PropFirmPolicy F) (now : ℕ) (balance : F) (s : PropFirmState F)
      → s.daily_start_date ≡ date now
      → breaches_daily pol s.daily_start_equity balance ≡ true
      → (observe pol now balance (some s)).0 ≢ none
      → IsHalted (date now) (observe pol now balance (some s)).1
  unfolding observe
  observe-trips pol now balance s day breach returned =
      let d₁ =
        track_peak balance (roll_day (date now) balance (record { state = s; dirty = false })) in
      let h₁ : d₁.state.daily_start_date ≡ date now = ground arith in
      let b₁ : breaches_daily pol d₁.state.daily_start_equity balance ≡ true = ground arith in
      let same : d₁.state.killed_today ≡ s.killed_today = ground arith in
      elim (Option-cases (check_daily pol balance d₁)) [
        | inl raised ↦ absurd (returned (rw raised))
        | inr (d₂, e₂) ↦
            let h₂ = check_daily-trips pol balance (date now) d₁ h₁ b₁ e₂ in
            elim (Option-cases (check_total pol balance d₂)) [
              | inl raised ↦ absurd (returned (rw (e₂, raised)))
              | inr (d₃, e₃) ↦
                  let h₃ = check_total-Halts pol balance (date now) d₂ h₂.0 e₃ in
                  rw (e₂, e₃) (ground arith)
            ]
      ]

  note_trade_opened-IsHalted :
      (day now : ℕ) (store : Store F)
      → IsHalted day store
      → IsHalted day (note_trade_opened now store)
  unfolding note_trade_opened
  note_trade_opened-IsHalted day now none h = h
  note_trade_opened-IsHalted day now (some s) h = ground arith

  after_calls-IsHalted :
      (pol : PropFirmPolicy F) (day : ℕ) (calls : List (Call F)) (store : Store F)
      → All (λ c. date (call_time c) ≡ day) calls
      → IsHalted day store
      → IsHalted day (after_calls pol calls store)
  unfolding after_calls
  after_calls-IsHalted pol day [] store on_day h = h
  after_calls-IsHalted pol day (observed now balance ∷ calls) store on_day h =
      after_calls-IsHalted pol day calls _ on_day.1
        (rw on_day.0 at (observe-IsHalted pol now balance store (rw on_day.0 h)))
  after_calls-IsHalted pol day (opened now ∷ calls) store on_day h =
      after_calls-IsHalted pol day calls _ on_day.1 (note_trade_opened-IsHalted day now store h)

  check-halted :
      (pol : PropFirmPolicy F) (day : ℕ) (store : Store F) (has_stop : Bool) (lot : F)
      → IsHalted day store
      → (check pol store has_stop lot).approved ≡ false
  unfolding check
  check-halted pol day none has_stop lot h = absurd h
  check-halted pol day (some s) has_stop lot h = ground arith

  -- An observation that returns, on the day of the window, of a balance that is below the equity at the
  -- start of the day, by at least the share `max_daily_loss_pct` of the initial balance, stops trading for that day: after it and any run of
  -- calls on the same day every trade is refused.
  pub daily_halt :
      (pol : PropFirmPolicy F) (now : ℕ) (balance : F) (s : PropFirmState F) (calls : List (Call F))
      (has_stop : Bool) (lot : F)
      → s.daily_start_date ≡ date now
      → nought ≺ sub s.daily_start_equity balance
      → mul pol.initial_balance pol.max_daily_loss_pct ≼ sub s.daily_start_equity balance
      → (observe pol now balance (some s)).0 ≢ none
      → All (λ c. date (call_time c) ≡ date now) calls
      → (check pol (after_calls pol (observed now balance ∷ calls) (some s)) has_stop lot).approved
        ≡ false
  unfolding after_calls
  daily_halt pol now balance s calls has_stop lot day lost beyond returned on_day =
      check-halted pol (date now) _ has_stop lot (
        after_calls-IsHalted pol (date now) calls _ on_day
          (observe-trips pol now balance s day (ground arith) returned))
