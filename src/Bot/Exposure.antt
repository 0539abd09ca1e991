-- ===== src/Bot/Exposure.antt =====
-- The risk manager's count of open trades against the journal's open rows, over what the bot does:
-- src/bot.py with src/execution/journal.py and src/risk/risk_manager.py.
pub mod Opened
pub mod Reconciled
pub mod Steps
use mathlib.Core.Option
use forex_ea.Prelude.{
  ℕ, zero, suc, ◌+◌, ◌-◌, ◌≤◌, ◌<◌, ◌≡◌, refl, sym, subst, ap, ◌∙◌, Bool, true, false, Option, none,
  some, List, [], ◌∷◌, ◌++◌, String, ◌&&◌, length, select, foldl, All, nat_beq, nat_beq_iff, arith,
  if◌then◌else◌, Bool-cases, Option-cases, inl, inr, ◌⊎◌,
}
use forex_ea.Table.{Table, lookup, nat_eq}
use forex_ea.Result.{Result, ok, err, ok_injective}
use forex_ea.Float.{Float}
use forex_ea.Execution.{Order, OrderStatus}
use forex_ea.Risk.Manager.{RiskLimits, RiskState, register_trade_opened, register_trade_closed}
use forex_ea.Risk.Sizing.{Pips}
use forex_ea.Journal.{
  Trade, Journal, CloseInfo, is_open, is_closed, holds, is_open_ticket, is_listed, listed,
  update_where, opened_row, close_row, settle_row, insert_row, record_open, record_close, list_open,
  mark_closed_by_ticket,
}
use forex_ea.Journal.Keys.{
  IsSound, IsTicketed, Reaches, update-IsSound, insert-IsSound, length-listed_update,
  length-listed_insert,
}
use forex_ea.Bot.{Bot}
use forex_ea.Bot.Reconcile.{seed_row}

module _ {F : Type 0} ⦃f : Float F⦄ where
  -- The count is that of the journal's open rows, and within the limit.
  pub record IsBooked (lim : RiskLimits F) (j : Journal F) (s : RiskState F) : Type 0 where
    pub sound : IsSound j.trades
    pub counted : s.open_trade_count ≡ length (list_open j)
    pub bounded : s.open_trade_count ≤ lim.max_open_trades

  abbrev pub IsBookedBot : {E : Type 0} → Bot F E → Type 0
  IsBookedBot b = IsBooked b.risk.limits b.journal b.risk_state

  -- A row of the journal that is open.
  abbrev pub IsOpenRow : Journal F → ℕ × Trade F → Type 0
  IsOpenRow j r = (lookup r.0 j.trades ≡ some r.1) × (is_listed r.0 r.1 ≡ true)

  closing-IsBooked :
      (lim : RiskLimits F) (j : Journal F) (s : RiskState F) (p : ℕ → Trade F → Bool)
      (change : Trade F → Trade F) (k : ℕ) (row : Trade F) (booked pnl : F)
      → Reaches p k
      → ((t : Trade F) → is_open (change t).status ≡ false)
      → ((t : Trade F) → (change t).broker_ticket ≡ t.broker_ticket)
      → IsOpenRow j (k, row)
      → p k row ≡ true
      → IsBooked lim j s
      → IsBooked lim
          (record j { trades = update_where p change j.trades })
          (register_trade_closed booked pnl s)
  unfolding list_open register_trade_closed
  closing-IsBooked lim j s p change k row booked pnl only ends keeps (found, shown) hit b =
      let fewer =
        length-listed_update p change k row j.trades only (rw (ends row) refl) b.sound found hit
          shown in
      record {
        sound =
            update-IsSound p change j.trades
              (λ id t h. record {
                ticket = keeps t ∙ h.ticket;
                unclosed = λ still. cc (ends t, still);
              })
              b.sound;
        counted = omega (arith, fewer, b.counted);
        bounded = omega (arith, b.bounded);
      }

  pub record_close-IsBooked :
      (lim : RiskLimits F) (j : Journal F) (s : RiskState F) (c : Order F) (row : Trade F)
      (booked pnl : F)
      → is_closed c.status ≡ true
      → IsOpenRow j (c.id, row)
      → IsBooked lim j s
      → IsBooked lim (record_close c j) (register_trade_closed booked pnl s)
  unfolding record_close
  record_close-IsBooked lim j s c row booked pnl done shown b =
      closing-IsBooked lim j s (λ id t. nat_beq id c.id) (close_row c) c.id row booked pnl
        (λ id t h hit. (nat_beq_iff id c.id).0 hit) (λ t. ground arith) (λ t. refl) shown
        ((nat_beq_iff c.id c.id).1 refl) b

  pub IsSound-lookup :
      (k : ℕ) (row : Trade F) (t : Table ℕ (Trade F))
      → IsSound t
      → lookup k t ≡ some row
      → IsTicketed k row
  IsSound-lookup k row [] sound h = cc h
  IsSound-lookup k row ((id, r) ∷ t) (fresh, ticketed, sound) h = elim (Bool-cases (nat_beq id k)) [
    | inl same ↦
        let e : id ≡ k = (nat_beq_iff id k).0 same in
        let e' : r ≡ row = cc (rw same at h) in rw (e, e') at ticketed
    | inr other ↦ IsSound-lookup k row t sound (rw other at h)
  ]

  pub Reaches-is_open_ticket : (ticket : ℕ) → Reaches {F = F} (is_open_ticket ticket) ticket
  Reaches-is_open_ticket ticket id t h hit =
      let hit' : (nat_beq id ticket && is_open t.status) ≡ true = rw h.ticket at hit in ground arith

  pub mark_closed-IsBooked :
      (lim : RiskLimits F) (j : Journal F) (s : RiskState F) (ticket : ℕ) (info : CloseInfo F)
      (reason : String) (row : Trade F) (booked pnl : F)
      → IsOpenRow j (ticket, row)
      → IsBooked lim j s
      → IsBooked lim
          (mark_closed_by_ticket ticket info reason j)
          (register_trade_closed booked pnl s)
  unfolding mark_closed_by_ticket
  mark_closed-IsBooked lim j s ticket info reason row booked pnl shown b =
      let own = IsSound-lookup ticket row j.trades b.sound shown.0 in
      closing-IsBooked lim j s (is_open_ticket ticket) (settle_row info reason) ticket row booked
        pnl (Reaches-is_open_ticket ticket) (λ t. refl) (λ t. refl) shown
        (ground (arith, own.ticket, nat_beq_iff ticket ticket, shown.1)) b

  insert-IsBooked :
      (lim : RiskLimits F) (j : Journal F) (s : RiskState F) (o : Order F) (booked : F)
      → o.status ≡ OrderStatus.open_status
      → o.broker_ticket ≡ some o.id
      → s.open_trade_count < lim.max_open_trades
      → lookup o.id j.trades ≡ none
      → IsBooked lim j s
      → IsBooked lim
          (record j { trades = j.trades ++ (o.id, opened_row o) ∷ [] })
          (register_trade_opened booked s)
  unfolding list_open register_trade_opened
  insert-IsBooked lim j s o booked opened ticket room free b =
      let shown : is_listed o.id (opened_row o) ≡ true = rw (opened, ticket) refl in
      let more = length-listed_insert o.id (opened_row o) j.trades shown in
      record {
        sound =
            insert-IsSound o.id (opened_row o) j.trades
              (record { ticket = ticket; unclosed = λ still. refl }) free b.sound;
        counted = omega (arith, more, b.counted);
        bounded = omega (arith, room);
      }

  pub record_open-IsBooked :
      (lim : RiskLimits F) (j : Journal F) (s : RiskState F) (o : Order F) (j' : Journal F)
      (booked : F)
      → o.status ≡ OrderStatus.open_status
      → o.broker_ticket ≡ some o.id
      → s.open_trade_count < lim.max_open_trades
      → record_open o j ≡ ok j'
      → IsBooked lim j s
      → IsBooked lim j' (register_trade_opened booked s)
  unfolding record_open list_open register_trade_opened
  record_open-IsBooked lim j s o j' booked opened ticket room h b =
      elim (Option-cases (lookup o.id j.trades)) [
        | inl free ↦
            subst (λ u. IsBooked lim u (register_trade_opened booked s))
              (ok_injective (rw free at h))
              (insert-IsBooked lim j s o booked opened ticket room free b)
        | inr (taken, found) ↦ cc (rw found at h)
      ]

  pub seed-open_trade_count :
      (pips : Pips F) (balance : F) (rows : Table ℕ (Trade F)) (s : RiskState F)
      → (foldl (seed_row pips balance) s rows).open_trade_count ≡ s.open_trade_count + length rows
  unfolding register_trade_opened
  seed-open_trade_count pips balance [] s = omega arith
  seed-open_trade_count pips balance (r ∷ rows) s =
      omega (arith, seed-open_trade_count pips balance rows (seed_row pips balance s r))
