-- ===== src/Journal/Keys.antt =====
-- The keys of the journal, where a trade's key is its broker ticket: how many trades are open after an
-- INSERT or an UPDATE. src/execution/journal.py.
use forex_ea.Prelude.{
  ℕ, suc, ◌≡◌, refl, sym, ap, Bool, true, false, none, some, [], ◌∷◌, ◌++◌, length, nat_beq,
  nat_beq_iff, arith, if◌then◌else◌, Bool-cases, inl, inr,
}
use forex_ea.Table.{Table, lookup, nat_eq}
use forex_ea.Float.{Float}
use forex_ea.Journal.{Trade, update_where, is_open, is_listed, listed}

module _ {F : Type 0} ⦃f : Float F⦄ where
  -- The ticket is the key, and an open row has not been closed.
  pub record IsTicketed (id : ℕ) (t : Trade F) : Type 0 where
    pub ticket : t.broker_ticket ≡ some id
    pub unclosed : is_open t.status ≡ true → t.closed_at ≡ none

  -- No two rows have one key, and each is ticketed.
  abbrev pub IsSound : Table ℕ (Trade F) → Type 0
  IsSound [] = Unit
  IsSound ((id, row) ∷ t) = (lookup id t ≡ none) × IsTicketed id row × IsSound t

  -- An update that reaches only the row of one key.
  abbrev pub Reaches : (ℕ → Trade F → Bool) → ℕ → Type 0
  Reaches p k = (id : ℕ) (t : Trade F) → IsTicketed id t → p id t ≡ true → id ≡ k

  lookup-update_none :
      (p : ℕ → Trade F → Bool) (change : Trade F → Trade F) (k : ℕ) (t : Table ℕ (Trade F))
      → lookup k t ≡ none
      → lookup k (update_where p change t) ≡ none
  lookup-update_none p change k [] h = refl
  lookup-update_none p change k ((id, row) ∷ t) h = ground (arith, lookup-update_none p change k t)

  IsTicketed-if :
      (b : Bool) (id : ℕ) (t u : Trade F)
      → IsTicketed id t
      → IsTicketed id u
      → IsTicketed id (if b then t else u)
  IsTicketed-if true id t u h k = h
  IsTicketed-if false id t u h k = k

  pub update-IsSound :
      (p : ℕ → Trade F → Bool) (change : Trade F → Trade F) (t : Table ℕ (Trade F))
      → ((id : ℕ) (row : Trade F) → IsTicketed id row → IsTicketed id (change row))
      → IsSound t
      → IsSound (update_where p change t)
  update-IsSound p change [] keeps h = tt
  update-IsSound p change ((id, row) ∷ t) keeps (fresh, ticketed, rest) = (
    lookup-update_none p change id t fresh,
    IsTicketed-if (p id row) id (change row) row (keeps id row ticketed) ticketed,
    update-IsSound p change t keeps rest,
  )

  misses :
      (p : ℕ → Trade F → Bool) (k id : ℕ) (t : Trade F)
      → Reaches p k
      → IsTicketed id t
      → nat_beq id k ≡ false
      → p id t ≡ false
  misses p k id t only ticketed other = elim (Bool-cases (p id t)) [
    | inl hit ↦ absurd (ground (arith, nat_beq_iff id k, only id t ticketed hit))
    | inr miss ↦ miss
  ]

  pub update_absent :
      (p : ℕ → Trade F → Bool) (change : Trade F → Trade F) (k : ℕ) (t : Table ℕ (Trade F))
      → Reaches p k
      → IsSound t
      → lookup k t ≡ none
      → update_where p change t ≡ t
  update_absent p change k [] only sound h = refl
  update_absent p change k ((id, row) ∷ t) only (fresh, ticketed, sound) h =
      elim (Bool-cases (nat_beq id k)) [
        | inl same ↦ cc (rw same at h)
        | inr other ↦
            rw (misses p k id row only ticketed other)
              (ap (λ u. (id, row) ∷ u) (update_absent p change k t only sound (rw other at h)))
      ]

  update_head :
      (p : ℕ → Trade F → Bool) (change : Trade F → Trade F) (k : ℕ) (row : Trade F)
      (t : Table ℕ (Trade F))
      → Reaches p k
      → is_listed k (change row) ≡ false
      → IsSound t
      → lookup k t ≡ none
      → p k row ≡ true
      → is_listed k row ≡ true
      → length (listed ((k, row) ∷ t))
        ≡ suc (length (listed (update_where p change ((k, row) ∷ t))))
  update_head p change k row t only hides sound fresh hit shown =
      rw (hit, shown, hides)
        (ap (λ u. suc (length (listed u))) (sym (update_absent p change k t only sound fresh)))

  pub length-listed_update :
      (p : ℕ → Trade F → Bool) (change : Trade F → Trade F) (k : ℕ) (row : Trade F)
      (t : Table ℕ (Trade F))
      → Reaches p k
      → is_listed k (change row) ≡ false
      → IsSound t
      → lookup k t ≡ some row
      → p k row ≡ true
      → is_listed k row ≡ true
      → length (listed t) ≡ suc (length (listed (update_where p change t)))
  length-listed_update p change k row [] only hides sound h hit shown = cc h
  length-listed_update p change k row ((id, r) ∷ t) only hides (fresh, ticketed, sound) h hit
        shown =
      elim (Bool-cases (nat_beq id k)) [
        | inl same ↦
            let e : id ≡ k = (nat_beq_iff id k).0 same in
            let e' : r ≡ row = cc (rw same at h) in
            rw (e, e') (update_head p change k row t only hides sound (rw e at fresh) hit shown)
        | inr other ↦
            let rest =
              length-listed_update p change k row t only hides sound (rw other at h) hit shown in
            rw (misses p k id r only ticketed other) (elim (Bool-cases (is_listed id r)) [
              | inl seen ↦ rw seen (ap suc rest)
              | inr hidden ↦ rw hidden rest
            ])
      ]

  pub length-listed_insert :
      (id : ℕ) (row : Trade F) (t : Table ℕ (Trade F))
      → is_listed id row ≡ true
      → length (listed (t ++ (id, row) ∷ [])) ≡ suc (length (listed t))
  length-listed_insert id row [] h = rw h refl
  length-listed_insert id row ((j, r) ∷ t) h = elim (Bool-cases (is_listed j r)) [
    | inl shown ↦ rw shown (ap suc (length-listed_insert id row t h))
    | inr hidden ↦ rw hidden (length-listed_insert id row t h)
  ]

  lookup-insert_other :
      (id k : ℕ) (row : Trade F) (t : Table ℕ (Trade F))
      → lookup k t ≡ none
      → nat_beq id k ≡ false
      → lookup k (t ++ (id, row) ∷ []) ≡ none
  lookup-insert_other id k row [] h other = rw other refl
  lookup-insert_other id k row ((j, r) ∷ t) h other = ground (arith, lookup-insert_other id k row t)

  pub insert-IsSound :
      (id : ℕ) (row : Trade F) (t : Table ℕ (Trade F))
      → IsTicketed id row
      → lookup id t ≡ none
      → IsSound t
      → IsSound (t ++ (id, row) ∷ [])
  insert-IsSound id row [] ticketed h sound = (refl, ticketed, tt)
  insert-IsSound id row ((j, r) ∷ t) ticketed h (fresh, own, sound) =
      elim (Bool-cases (nat_beq j id)) [
        | inl same ↦ cc (rw same at h)
        | inr other ↦ (
          lookup-insert_other id j row t fresh (ground (arith, nat_beq_iff j id, nat_beq_iff id j)),
          own,
          insert-IsSound id row t ticketed (rw other at h) sound,
        )
      ]
