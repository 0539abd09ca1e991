-- ===== src/Mock/Book.antt =====
-- The open orders of the dry run's executor, call by call: src/execution/mock.py.
use forex_ea.Prelude.{
  ℕ, suc, ◌≡◌, ◌<◌, refl, ap, ◌∙◌, true, false, List, [], ◌∷◌, ◌++◌, String, select, not, nat_beq,
  nat_beq_iff, All, arith, Bool-cases, inl, inr,
}
use forex_ea.Float.{Float}
use forex_ea.Execution.{Order, OrderStatus}
use forex_ea.Journal.{is_open}
use forex_ea.Mock.{MockExecutor, rewrite, mock_place, mock_close, mock_open_orders, closed_order}

-- The calls of the bot, with their arguments.
pub data MockCall (F : Type 0) : Type 0 where
  placed : Order F → MockCall F
  closing : ℕ → Order F → String → MockCall F

module _ {F : Type 0} ⦃f : Float F⦄ where
  abbrev pub perform : MockExecutor F → MockCall F → MockExecutor F
  perform e (placed o) = (mock_place o e).1
  perform e (closing now o reason) = (mock_close now o reason e).1

  abbrev pub perform_all : List (MockCall F) → MockExecutor F → MockExecutor F
  perform_all [] e = e
  perform_all (c ∷ calls) e = perform_all calls (perform e c)

  -- The numbers of the orders lie below the next one.
  abbrev pub IsNew : ℕ → List (Order F) → Type 0
  IsNew n orders = All (λ (o : Order F). o.id < n) orders

  IsNew-rewrite :
      (n : ℕ) (o : Order F) (orders : List (Order F)) → IsNew n orders → IsNew n (rewrite o orders)
  IsNew-rewrite n o [] h = tt
  IsNew-rewrite n o (p ∷ orders) (h, hs) = elim (Bool-cases (nat_beq p.id o.id)) [
    | inl same ↦
        rw same (omega (arith, h, (nat_beq_iff p.id o.id).0 same), IsNew-rewrite n o orders hs)
    | inr other ↦ rw other (h, IsNew-rewrite n o orders hs)
  ]

  open_rewrite :
      (c : Order F) (orders : List (Order F))
      → is_open c.status ≡ false
      → select (λ (o : Order F). is_open o.status) (rewrite c orders)
        ≡ select
            (λ (o : Order F). not (nat_beq o.id c.id))
            (select (λ (o : Order F). is_open o.status) orders)
  open_rewrite c [] h = refl
  open_rewrite c (p ∷ orders) h =
      let rest = open_rewrite c orders h in
      elim (Bool-cases (nat_beq p.id c.id)) [
        | inl same ↦ elim (Bool-cases (is_open p.status)) [
          | inl live ↦ rw (same, h, live, same) rest
          | inr done ↦ rw (same, h, done) rest
        ]
        | inr other ↦ elim (Bool-cases (is_open p.status)) [
          | inl live ↦ rw (other, live, other) (ap (λ u. p ∷ u) rest)
          | inr done ↦ rw (other, done) rest
        ]
      ]

  open_append :
      (o : Order F) (orders : List (Order F))
      → is_open o.status ≡ true
      → select (λ (q : Order F). is_open q.status) (orders ++ o ∷ [])
        ≡ select (λ (q : Order F). is_open q.status) orders ++ o ∷ []
  open_append o [] h = rw h refl
  open_append o (p ∷ orders) h = elim (Bool-cases (is_open p.status)) [
    | inl live ↦ rw live (ap (λ u. p ∷ u) (open_append o orders h))
    | inr done ↦ rw done (open_append o orders h)
  ]

  -- The open orders alone: a placing adds one under the next number, a closing drops those of its own.
  abbrev pub book : List (MockCall F) → ℕ → List (Order F) → List (Order F)
  book [] n live = live
  book (placed o ∷ calls) n live =
      book calls (suc n) (live ++ record o { id = n; status = OrderStatus.open_status } ∷ [])
  book (closing now o reason ∷ calls) n live =
      book calls n (select (λ (p : Order F). not (nat_beq p.id o.id)) live)

  IsNew-placed :
      (n : ℕ) (o : Order F) (orders : List (Order F))
      → o.id ≡ n
      → IsNew n orders
      → IsNew (suc n) (orders ++ o ∷ [])
  IsNew-placed n o [] e h = (omega arith, tt)
  IsNew-placed n o (p ∷ orders) e (h, hs) = (omega arith, IsNew-placed n o orders e hs)

  -- While the numbers of the orders lie below the next one, as they do at the start: through any
  -- placings and closings, the open orders are those that were open or have been placed, and whose
  -- number has not been closed since, in their order; and the next number stays above all others.
  pub mock_open_orders-book :
      (calls : List (MockCall F)) (e : MockExecutor F)
      → IsNew e.next_id e.orders
      → let e' = perform_all calls e in
        (mock_open_orders e' ≡ book calls e.next_id (mock_open_orders e))
        × IsNew e'.next_id e'.orders
  unfolding mock_open_orders mock_place mock_close
  mock_open_orders-book [] e h = (refl, h)
  mock_open_orders-book (placed o ∷ calls) e h =
      let o' = record o { id = e.next_id; status = OrderStatus.open_status } in
      let (same, new) =
        mock_open_orders-book calls (mock_place o e).1
          (IsNew-placed e.next_id o' e.orders refl h) in
      (same ∙ ap (λ live. book calls (suc e.next_id) live) (open_append o' e.orders refl), new)
  mock_open_orders-book (closing now o reason ∷ calls) e h =
      let c = closed_order now o reason in
      let (same, new) =
        mock_open_orders-book calls (mock_close now o reason e).1
          (IsNew-rewrite e.next_id c e.orders h) in
      (same ∙ ap (λ live. book calls e.next_id live) (open_rewrite c e.orders refl), new)
