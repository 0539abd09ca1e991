-- ===== src/Bot/Exposure/Reconciled.antt =====
-- The count of open trades after a reconciliation and after a restart: `_maybe_reconcile_journal` and
-- `_seed_risk_state_from_journal` of src/bot.py.
use forex_ea.Prelude.{
  ℕ, zero, suc, ◌≡◌, refl, sym, subst, ◌∙◌, false, Option, none, some, [], ◌∷◌, String, nat_beq,
  nat_beq_iff, arith, Bool-cases, inl, inr,
}
use forex_ea.Table.{Table, lookup, nat_eq}
use forex_ea.Float.{Float}
use forex_ea.Risk.Sizing.{Pips}
use forex_ea.Journal.{
  Trade, Journal, CloseInfo, is_listed, listed, list_open, mark_closed_by_ticket, settle_row,
  is_open_ticket,
}
use forex_ea.Journal.Keys.{IsSound}
use forex_ea.Journal.Lifecycle.{lookup-update_where}
use forex_ea.Bot.{Bot, Executor}
use forex_ea.Bot.Reconcile.{
  Positions, among, reconcile_ticket, reconcile_rows, reconcile_journal, settle_phantom, restart,
  seed_risk_state, balance_or_nought, fresh_state,
}
use forex_ea.Bot.Exposure.{
  IsBookedBot, IsOpenRow, mark_closed-IsBooked, IsSound-lookup, Reaches-is_open_ticket,
  seed-open_trade_count,
}

module _ {F : Type 0} ⦃f : Float F⦄ where
  -- Rows that are open in the journal, each of its own key.
  abbrev IsPending : Journal F → Table ℕ (Trade F) → Type 0
  IsPending j [] = Unit
  IsPending j (r ∷ rows) = (lookup r.0 rows ≡ none) × IsOpenRow j r × IsPending j rows

  mark-IsOpenRow :
      (ticket : ℕ) (info : CloseInfo F) (reason : String) (j : Journal F) (r : ℕ × Trade F)
      → IsSound j.trades
      → nat_beq r.0 ticket ≡ false
      → IsOpenRow j r
      → IsOpenRow (mark_closed_by_ticket ticket info reason j) r
  unfolding mark_closed_by_ticket
  mark-IsOpenRow ticket info reason j (id, t) sound other (found, shown) =
      elim (Bool-cases (is_open_ticket ticket id t)) [
        | inl hit ↦
            let same =
              Reaches-is_open_ticket ticket id t (IsSound-lookup id t j.trades sound found) hit in
            absurd (ground (arith, same, nat_beq_iff id ticket))
        | inr miss ↦ (
          lookup-update_where (is_open_ticket ticket) (settle_row info reason) id j.trades
              ∙ rw (found, miss) refl,
          shown,
        )
      ]

  mark-IsPending :
      (ticket : ℕ) (info : CloseInfo F) (reason : String) (j : Journal F) (rows : Table ℕ (Trade F))
      → IsSound j.trades
      → lookup ticket rows ≡ none
      → IsPending j rows
      → IsPending (mark_closed_by_ticket ticket info reason j) rows
  mark-IsPending ticket info reason j [] sound h pending = tt
  mark-IsPending ticket info reason j ((id, t) ∷ rows) sound h (fresh, shown, pending) =
      elim (Bool-cases (nat_beq id ticket)) [
        | inl same ↦ cc (rw same at h)
        | inr other ↦ (
          fresh,
          mark-IsOpenRow ticket info reason j (id, t) sound other shown,
          mark-IsPending ticket info reason j rows sound (rw other at h) pending,
        )
      ]

  lookup-listed : (k : ℕ) (t : Table ℕ (Trade F)) → lookup k t ≡ none → lookup k (listed t) ≡ none
  lookup-listed k [] h = refl
  lookup-listed k ((id, r) ∷ t) h = ground (arith, lookup-listed k t)

  kept-lookup :
      (id : ℕ) (r : Trade F) (t : Table ℕ (Trade F))
      → lookup id t ≡ none
      → (q : ℕ × Trade F) → lookup q.0 t ≡ some q.1
      → lookup q.0 ((id, r) ∷ t) ≡ some q.1
  kept-lookup id r t fresh q found = elim (Bool-cases (nat_beq id q.0)) [
    | inl same ↦
        let e : id ≡ q.0 = (nat_beq_iff id q.0).0 same in
        let free : lookup q.0 t ≡ none = rw e at fresh in absurd (cc (free, found))
    | inr other ↦ rw other found
  ]

  IsPending-listed :
      (j : Journal F) (t : Table ℕ (Trade F))
      → IsSound t
      → ((r : ℕ × Trade F) → lookup r.0 t ≡ some r.1 → lookup r.0 j.trades ≡ some r.1)
      → IsPending j (listed t)
  IsPending-listed j [] sound sub = tt
  IsPending-listed j ((id, r) ∷ t) (fresh, ticketed, sound) sub =
      let tail = IsPending-listed j t sound (λ q found. sub q (kept-lookup id r t fresh q found)) in
      elim (Bool-cases (is_listed id r)) [
        | inl shown ↦ rw shown (
          lookup-listed id t fresh,
          (sub (id, r) (ground (arith, nat_beq_iff id id)), shown),
          tail,
        )
        | inr hidden ↦ rw hidden tail
      ]

  module _ {E : Type 0} (ex : Executor F E) (pips : Pips F) where
    -- What the loop keeps: the count, and that the rows ahead are open.
    abbrev Keeps : Bot F E → Table ℕ (Trade F) → Type 0
    Keeps b rows = IsBookedBot b × IsPending b.journal rows

    settle_phantom-Keeps :
        (n : ℕ) (t : Trade F) (o : Option (CloseInfo F)) (b : Bot F E) (rows : Table ℕ (Trade F))
        → Keeps b ((n, t) ∷ rows)
        → Keeps (settle_phantom ex pips n t o b) rows
    settle_phantom-Keeps n t none b rows (booked, (fresh, shown, pending)) = (booked, pending)
    settle_phantom-Keeps n t (some info) b rows (booked, (fresh, shown, pending)) = (
      mark_closed-IsBooked b.risk.limits b.journal b.risk_state n info "reconciled_from_mt5" t _ _
          shown booked,
      mark-IsPending n info "reconciled_from_mt5" b.journal rows booked.sound fresh pending,
    )

    reconcile_ticket-Keeps :
        (pos : Positions F) (n : ℕ) (t : Trade F) (b : Bot F E) (rows : Table ℕ (Trade F))
        → Keeps b ((n, t) ∷ rows)
        → Keeps (reconcile_ticket ex pips pos t (some n) b) rows
    reconcile_ticket-Keeps pos zero t b rows (booked, (fresh, shown, pending)) = (booked, pending)
    reconcile_ticket-Keeps pos (suc n) t b rows h =
        elim (Bool-cases (among (suc n) pos.live_tickets)) [
          | inl live ↦ rw live (h.0, h.1.2)
          | inr gone ↦ rw gone (settle_phantom-Keeps (suc n) t (pos.fetch_close (suc n)) b rows h)
        ]

    reconcile_rows-IsBooked :
        (pos : Positions F) (rows : Table ℕ (Trade F)) (b : Bot F E)
        → Keeps b rows
        → IsBookedBot (reconcile_rows ex pips pos rows b)
    reconcile_rows-IsBooked pos [] b h = h.0
    reconcile_rows-IsBooked pos ((id, t) ∷ rows) b h =
        let own = (IsSound-lookup id t b.journal.trades h.0.sound h.1.1.0).ticket in
        subst
          (λ o. IsBookedBot (reconcile_rows ex pips pos rows (reconcile_ticket ex pips pos t o b)))
          (sym own)
          (reconcile_rows-IsBooked pos rows (reconcile_ticket ex pips pos t (some id) b)
            (reconcile_ticket-Keeps pos id t b rows h))

    pub reconcile_journal-IsBooked :
        (pos : Option (Positions F)) (b : Bot F E)
        → IsBookedBot b
        → IsBookedBot (reconcile_journal ex pips pos b)
    unfolding reconcile_journal list_open
    reconcile_journal-IsBooked none b booked = booked
    reconcile_journal-IsBooked (some pos) b booked =
        reconcile_rows-IsBooked pos (listed b.journal.trades) b
          (booked, IsPending-listed b.journal b.journal.trades booked.sound (λ r found. found))

    pub restart-IsBooked : (e : E) (b : Bot F E) → IsBookedBot b → IsBookedBot (restart ex pips e b)
    unfolding restart seed_risk_state
    restart-IsBooked e b booked =
        let seeded =
          seed-open_trade_count pips (balance_or_nought (ex.account_balance e))
            (list_open b.journal) fresh_state in
        record {
          sound = booked.sound;
          counted = omega (arith, seeded);
          bounded = omega (arith, seeded, booked.counted, booked.bounded);
        }
