-- ===== src/Bot/Closing/Cooldown.antt =====
-- A refused closing: `_close_order` and the retry test of `tick` in src/bot.py.
use forex_ea.Prelude.{ℕ, ◌+◌, ◌*◌, ◌<◌, ◌≡◌, refl, ap, ◌∙◌, true, false, Option, none, some, arith}
use forex_ea.Table.{lookup, lookup-upsert_self, nat_eq}
use forex_ea.Float.{Float}
use forex_ea.Execution.{Order, Bar, second}
use forex_ea.Execution.Exits.{Trigger, close_trigger}
use forex_ea.Journal.{is_closed}
use forex_ea.Bot.{Bot, Executor, Clock}
use forex_ea.Bot.Closing.{
  close_order, watch_order, by_trigger, after_close, postpone, log_close, text_of, ticket_of, waits,
  close_retry_cooldown,
}

waits_early : (now until : ℕ) → now < until → waits now (some until) ≡ true
waits_early now until h = ground arith

module _ {F : Type 0} ⦃f : Float F⦄ {E : Type 0} where
  by_trigger-waits :
      (ex : Executor F E) (now : ℕ) (clk : Clock F) (o : Order F) (trigger : Option Trigger)
      (b : Bot F E) (until : ℕ)
      → lookup (ticket_of o) b.close_retry_after ≡ some until
      → now < until
      → by_trigger ex now clk o trigger b ≡ b
  by_trigger-waits ex now clk o none b until h early = refl
  by_trigger-waits ex now clk o (some trigger) b until h early =
      rw (h, waits_early now until early) refl

  -- An order whose closing is refused stays in the journal and in the risk manager's books; and in
  -- every later state of the bot that still has the note of the refusal for this ticket, whatever else
  -- has changed (stops trailed, trades opened and closed), a look at an order with this ticket starts no
  -- other closing and changes nothing, whatever the bars show, until 30 seconds have passed on the
  -- monotonic clock.
  pub close_order-refused :
      (ex : Executor F E) (clk later : Clock F) (o p : Order F) (reason : Trigger)
      (b since : Bot F E) (now : ℕ) (bar : Option (Bar F))
      → let c = (ex.close o (text_of reason) b.executor).0 in
        let b' = close_order ex clk o reason b in
        is_closed c.status ≡ false
        → ticket_of p ≡ ticket_of c
        → now < clk.monotonic + 30 * second
        → lookup (ticket_of c) since.close_retry_after ≡ lookup (ticket_of c) b'.close_retry_after
        → (b'.journal ≡ b.journal)
          × (b'.risk_state ≡ b.risk_state)
          × (watch_order ex now later bar p since ≡ since)
  unfolding close_order watch_order
  close_order-refused ex clk later o p reason b since now bar refused same early kept =
      let (c, e) = ex.close o (text_of reason) b.executor in
      let logged = log_close clk o reason c (record b { executor = e }) in
      let until = clk.monotonic + close_retry_cooldown in
      let left : after_close clk o c logged ≡ postpone clk c logged = rw refused refl in
      let noted : lookup (ticket_of c) since.close_retry_after ≡ some until =
        kept
        ∙ ap (λ (d : Bot F E). lookup (ticket_of c) d.close_retry_after) left
        ∙ lookup-upsert_self (ticket_of c) until b.close_retry_after in
      let seen : lookup (ticket_of p) since.close_retry_after ≡ some until = rw same noted in
      (
        ap (λ (d : Bot F E). d.journal) left,
        ap (λ (d : Bot F E). d.risk_state) left,
        by_trigger-waits ex now later p (close_trigger p bar) since until seen early,
      )
