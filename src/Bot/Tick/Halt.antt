-- ===== src/Bot/Tick/Halt.antt =====
-- The kill switch and the pause in the bot's loop: `tick` and `run_forever` of src/bot.py with
-- src/voice/killswitch.py and src/api/bot_control.py.
use forex_ea.Prelude.{
  ℕ, suc, ◌≡◌, refl, sym, subst, ◌∙◌, Bool, true, false, Option, some, List, [], ◌∷◌, ◌++◌, String,
  if◌then◌else◌, Bool-cases, Option-cases, inl, inr,
}
use forex_ea.Table.{string_eq}
use forex_ea.Float.{Float}
use forex_ea.Bot.{Bot}
use forex_ea.Bot.Rounds.{Setup, Round, Loop, is_killed, is_paused}
use forex_ea.Bot.Tick.{beat, tick, iterate, loop, run_forever}

module _ {F : Type 0} ⦃f : Float F⦄ {B E : Type 0} (cfg : Setup F B E) where
  -- A heartbeat changes neither the bot nor whether it runs.
  beat-same :
      (now : ℕ) (last_error : Option String) (s : Loop F E)
      → ((beat cfg now last_error s).bot ≡ s.bot)
        × ((beat cfg now last_error s).running ≡ s.running)
  beat-same now last_error s = elim (Option-cases s.heartbeats) [
    | inl off ↦ rw off (refl, refl)
    | inr (table, on) ↦ rw on (refl, refl)
  ]

  iterate_killed :
      (r : Round F B) (s : Loop F E)
      → is_paused r.control ≡ false
      → is_killed r.kill_switch ≡ true
      → ((iterate cfg r s).bot ≡ s.bot) × ((iterate cfg r s).running ≡ false)
  unfolding iterate tick
  iterate_killed r s awake killed =
      let s' = record s { tick_count = suc s.tick_count } in
      rw (awake, killed) ((beat-same r.now (some "voice killswitch tripped") s').0, refl)

  loop_stopped :
      (rounds : List (Round F B)) (s : Loop F E) → s.running ≡ false → loop cfg rounds s ≡ s
  loop_stopped [] s h = refl
  loop_stopped (r ∷ rounds) s h = rw h refl

  if_true : (b : Bool) (s t : Loop F E) → b ≡ true → (if b then s else t) ≡ s
  if_true true s t h = refl
  if_true false s t h = cc h

  loop_runs :
      (r : Round F B) (rounds : List (Round F B)) (s : Loop F E)
      → s.running ≡ true
      → loop cfg (r ∷ rounds) s ≡ loop cfg rounds (iterate cfg r s)
  loop_runs r rounds s h = if_true s.running (loop cfg rounds (iterate cfg r s)) s h

  -- It has stopped, and its bot is the given one.
  abbrev pub IsHalted : Bot F E → Loop F E → Type 0
  IsHalted b s = (s.running ≡ false) × (s.bot ≡ b)

  loop-IsHalted :
      (before after : List (Round F B)) (r : Round F B) (s : Loop F E)
      → is_paused r.control ≡ false
      → is_killed r.kill_switch ≡ true
      → IsHalted (loop cfg before s).bot (loop cfg (before ++ r ∷ after) s)
  loop-IsHalted [] after r s awake killed = elim (Bool-cases s.running) [
    | inl runs ↦
        let (same, stops) = iterate_killed r s awake killed in
        let ends = loop_runs r after s runs ∙ loop_stopped after (iterate cfg r s) stops in
        subst (IsHalted s.bot) (sym ends) (stops, same)
    | inr ended ↦ subst (IsHalted s.bot) (sym (loop_stopped (r ∷ after) s ended)) (ended, refl)
  ]
  loop-IsHalted (q ∷ before) after r s awake killed = elim (Bool-cases s.running) [
    | inl runs ↦
        let rest = loop-IsHalted before after r (iterate cfg q s) awake killed in
        let all = loop cfg (q ∷ before ++ r ∷ after) s in
        subst (λ u. IsHalted u.bot all) (sym (loop_runs q before s runs))
          (subst (IsHalted (loop cfg before (iterate cfg q s)).bot)
            (sym (loop_runs q (before ++ r ∷ after) s runs)) rest)
    | inr ended ↦
        let all = loop cfg (q ∷ before ++ r ∷ after) s in
        subst (λ u. IsHalted u.bot all) (sym (loop_stopped (q ∷ before) s ended))
          (subst (IsHalted s.bot) (sym (loop_stopped (q ∷ before ++ r ∷ after) s ended))
            (ended, refl))
  ]

  -- Once the kill switch is tripped, the next iteration that is not paused ends the loop: whatever
  -- rounds would follow, the bot's journal, books and orders stay as the iterations before it left
  -- them, and the loop does not run any more.
  pub run_forever-IsHalted :
      (before after : List (Round F B)) (r : Round F B) (s : Loop F E)
      → is_paused r.control ≡ false
      → is_killed r.kill_switch ≡ true
      → IsHalted (run_forever cfg before s).bot (run_forever cfg (before ++ r ∷ after) s)
  unfolding run_forever
  run_forever-IsHalted before after r s awake killed = loop-IsHalted before after r _ awake killed
