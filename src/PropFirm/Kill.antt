-- ===== src/PropFirm/Kill.antt =====
-- The kill flags of src/propfirm/guard.py, over every later run of calls.
use forex_ea.Prelude.{
  ℕ, ◌≡◌, refl, Bool, true, false, Option, none, some, List, [], ◌∷◌, arith, inl, inr, Option-cases,
}
use forex_ea.Float.{Float, max_of}
use forex_ea.Execution.{date}
use forex_ea.PropFirm.{
  PropFirmPolicy, PropFirmState, Store, Call, observed, opened, observe, check, note_trade_opened,
  after_calls, roll_day, track_peak, check_daily, check_total, Draft, settle, baseline,
}

module _ {F : Type 0} ⦃f : Float F⦄ where
  -- The account is killed for good.
  abbrev pub IsDead : Store F → Type 0
  IsDead none = ⊥
  IsDead (some s) = s.killed_permanently ≡ true

  check_daily-dead :
      (pol : PropFirmPolicy F) (balance : F) (d : Draft F) {d' : Draft F}
      → d.state.killed_permanently ≡ true
      → check_daily pol balance d ≡ some d'
      → d'.state.killed_permanently ≡ true
  unfolding check_daily
  check_daily-dead pol balance d h e = ground arith

  check_total-dead :
      (pol : PropFirmPolicy F) (balance : F) (d : Draft F) {d' : Draft F}
      → d.state.killed_permanently ≡ true
      → check_total pol balance d ≡ some d'
      → d'.state.killed_permanently ≡ true
  unfolding check_total
  check_total-dead pol balance d h e = ground arith

  settle-IsDead :
      (now : ℕ) (s : PropFirmState F) (d : Option (Draft F))
      → s.killed_permanently ≡ true
      → ((d' : Draft F) → d ≡ some d' → d'.state.killed_permanently ≡ true)
      → IsDead (settle now s d).1
  settle-IsDead now s none h k = h
  settle-IsDead now s (some d) h k = ground (arith, k d refl)

  observe-IsDead :
      (pol : PropFirmPolicy F) (now : ℕ) (balance : F) (store : Store F)
      → IsDead store
      → IsDead (observe pol now balance store).1
  unfolding observe
  observe-IsDead pol now balance none h = absurd h
  observe-IsDead pol now balance (some s) h =
      let d₁ =
        track_peak balance (roll_day (date now) balance (record { state = s; dirty = false })) in
      let h₁ : d₁.state.killed_permanently ≡ true = ground arith in
      elim (Option-cases (check_daily pol balance d₁)) [
        | inl raised ↦ rw raised h
        | inr (d₂, e₂) ↦ rw e₂ (
            settle-IsDead now s _ h
              (λ d₃ e₃. check_total-dead pol balance d₂ (check_daily-dead pol balance d₁ h₁ e₂) e₃))
      ]

  note_trade_opened-IsDead :
      (now : ℕ) (store : Store F) → IsDead store → IsDead (note_trade_opened now store)
  unfolding note_trade_opened
  note_trade_opened-IsDead now none h = h
  note_trade_opened-IsDead now (some s) h = ground arith

  after_calls-IsDead :
      (pol : PropFirmPolicy F) (calls : List (Call F)) (store : Store F)
      → IsDead store
      → IsDead (after_calls pol calls store)
  unfolding after_calls
  after_calls-IsDead pol [] store h = h
  after_calls-IsDead pol (observed now balance ∷ calls) store h =
      after_calls-IsDead pol calls _ (observe-IsDead pol now balance store h)
  after_calls-IsDead pol (opened now ∷ calls) store h =
      after_calls-IsDead pol calls _ (note_trade_opened-IsDead now store h)

  check-dead :
      (pol : PropFirmPolicy F) (store : Store F) (has_stop : Bool) (lot : F)
      → IsDead store
      → (check pol store has_stop lot).approved ≡ false
  unfolding check
  check-dead pol none has_stop lot h = absurd h
  check-dead pol (some s) has_stop lot h = ground arith

  -- Once an account is killed for good, no run of observations and openings, at whatever times and
  -- balances, revives it: every later trade is refused.
  pub killed_forever :
      (pol : PropFirmPolicy F) (calls : List (Call F)) (store : Store F) (has_stop : Bool) (lot : F)
      → IsDead store
      → (check pol (after_calls pol calls store) has_stop lot).approved ≡ false
  killed_forever pol calls store has_stop lot h =
      check-dead pol _ has_stop lot (after_calls-IsDead pol calls store h)

  pub check_daily-rest :
      (pol : PropFirmPolicy F) (balance : F) (d : Draft F) {d' : Draft F}
      → check_daily pol balance d ≡ some d'
      → (baseline pol d'.state ≡ baseline pol d.state)
        × (d'.state.killed_permanently ≡ d.state.killed_permanently)
  unfolding check_daily
  check_daily-rest pol balance d e = ground arith

  -- The row with its peak raised to the balance.
  abbrev pub peaked : F → PropFirmState F → PropFirmState F
  peaked balance s = record s { peak_equity = max_of s.peak_equity balance }

  pub track_peak-baseline :
      (pol : PropFirmPolicy F) (day : ℕ) (balance : F) (s : PropFirmState F)
      → let d = track_peak balance (roll_day day balance (record { state = s; dirty = false })) in
        (baseline pol d.state ≡ baseline pol (peaked balance s))
        × (d.state.killed_permanently ≡ s.killed_permanently)
  unfolding track_peak roll_day
  track_peak-baseline pol day balance s = ground arith
