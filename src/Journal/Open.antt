-- ===== src/Journal/Open.antt =====
-- The open rows of the journal, and the reconciler's patch of them: src/execution/journal.py.
use forex_ea.Prelude.{
  ℕ, ◌≡◌, refl, ap, Bool, true, false, [], ◌∷◌, String, select, not, arith, Bool-cases, inl, inr,
}
use forex_ea.Table.{Table, nat_eq}
use forex_ea.Float.{Float}
use forex_ea.Journal.{
  Trade, Journal, CloseInfo, update_where, settle_row, holds, is_open_ticket, is_listed, listed,
  list_open, mark_closed_by_ticket,
}

update_where-update_where :
    {V : Type 0} (p : ℕ → V → Bool) (change again : V → V) (t : Table ℕ V)
    → ((id : ℕ) (row : V) → p id row ≡ true → p id (change row) ≡ false)
    → update_where p again (update_where p change t) ≡ update_where p change t
update_where-update_where p change again [] h = refl
update_where-update_where p change again ((id, row) ∷ t) h = elim (Bool-cases (p id row)) [
  | inl hit ↦
      rw (hit, h id row hit)
        (ap (λ u. (id, change row) ∷ u) (update_where-update_where p change again t h))
  | inr miss ↦
      rw (miss, miss) (ap (λ u. (id, row) ∷ u) (update_where-update_where p change again t h))
]

module _ {F : Type 0} ⦃f : Float F⦄ where
  settle-is_open_ticket :
      (ticket : ℕ) (info : CloseInfo F) (reason : String) (id : ℕ) (t : Trade F)
      → is_open_ticket ticket id (settle_row info reason t) ≡ false
  settle-is_open_ticket ticket info reason id t = ground arith

  mark_closed_by_ticket_again :
      (ticket : ℕ) (info later : CloseInfo F) (reason other : String) (j : Journal F)
      → mark_closed_by_ticket ticket later other (mark_closed_by_ticket ticket info reason j)
        ≡ mark_closed_by_ticket ticket info reason j
  unfolding mark_closed_by_ticket
  mark_closed_by_ticket_again ticket info later reason other j =
      ap (λ rows. record j { trades = rows })
        (update_where-update_where (is_open_ticket ticket) (settle_row info reason)
          (settle_row later other) j.trades
          (λ id t h. settle-is_open_ticket ticket info reason id t))

  abbrev pub is_other : ℕ → ℕ × Trade F → Bool
  is_other ticket r = not (holds r.1.broker_ticket ticket)

  open_ticket-held :
      (ticket id : ℕ) (t : Trade F)
      → is_open_ticket ticket id t ≡ true
      → holds t.broker_ticket ticket ≡ true
  open_ticket-held ticket id t h = ground arith

  listed_other :
      (ticket id : ℕ) (t : Trade F)
      → is_open_ticket ticket id t ≡ false
      → is_listed id t ≡ true
      → is_other ticket (id, t) ≡ true
  listed_other ticket id t h k = ground arith

  listed-settle :
      (ticket : ℕ) (info : CloseInfo F) (reason : String) (t : Table ℕ (Trade F))
      → listed (update_where (is_open_ticket ticket) (settle_row info reason) t)
        ≡ select (is_other ticket) (listed t)
  listed-settle ticket info reason [] = refl
  listed-settle ticket info reason ((id, row) ∷ t) =
      let rest = listed-settle ticket info reason t in
      elim (Bool-cases (is_open_ticket ticket id row)) [
        | inl hit ↦ elim (Bool-cases (is_listed id row)) [
          | inl shown ↦ rw (hit, shown, open_ticket-held ticket id row hit) rest
          | inr hidden ↦ rw (hit, hidden) rest
        ]
        | inr miss ↦ elim (Bool-cases (is_listed id row)) [
          | inl shown ↦
              rw (miss, shown, listed_other ticket id row miss shown) (ap (λ u. (id, row) ∷ u) rest)
          | inr hidden ↦ rw (miss, hidden) rest
        ]
      ]

  -- The reconciler's patch removes from the list of open trades the trades of its ticket, and only
  -- these, with the others in the order they had; and a second patch of the ticket, whatever it says,
  -- leaves the journal as the first one left it.
  list_open-mark_closed :
      (ticket : ℕ) (info later : CloseInfo F) (reason other : String) (j : Journal F)
      → (list_open (mark_closed_by_ticket ticket info reason j)
          ≡ select (is_other ticket) (list_open j))
        × (mark_closed_by_ticket ticket later other (mark_closed_by_ticket ticket info reason j)
            ≡ mark_closed_by_ticket ticket info reason j)
  unfolding mark_closed_by_ticket list_open
  list_open-mark_closed ticket info later reason other j = (
    listed-settle ticket info reason j.trades,
    mark_closed_by_ticket_again ticket info later reason other j,
  )
