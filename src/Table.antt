-- ===== src/Table.antt =====
-- Equality of keys, and a SQLite table as an association list: at most one row is read for a key, and
-- an `INSERT ... ON CONFLICT(key) DO UPDATE` replaces the row of its key or appends one.
use text.Mathlib.Text.{◌==◌ as str_eq}
use text.Mathlib.TextEquality.{eq_iff}
use forex_ea.Prelude.{
  ◌≡◌, refl, ◌≢◌, ◌↔◌, Bool, true, ◌&&◌, Option, none, some, List, [], ◌∷◌, String, arith, ℕ,
  nat_beq, nat_beq_iff, if◌then◌else◌, subst, Bool-cases, inl, inr, All,
}

pub record Eq {ℓ} (K : Type ℓ) : Type ℓ where
  pub beq : K → K → Bool
  pub beq_iff : (a b : K) → (beq a b ≡ true) ↔ (a ≡ b)

infix 50 ◌==◌
abbrev pub ◌==◌ {ℓ} : {K : Type ℓ} ⦃e : Eq K⦄ → K → K → Bool
◌==◌ ⦃e⦄ = e.beq

instance abbrev pub nat_eq : Eq ℕ
nat_eq = record { beq = nat_beq; beq_iff = nat_beq_iff }

instance abbrev pub string_eq : Eq String
string_eq = record { beq = str_eq; beq_iff = eq_iff }

-- A key of two columns.
abbrev pub pair_beq {ℓ} : {A B : Type ℓ} → Eq A → Eq B → A × B → A × B → Bool
pair_beq d e p q = d.beq p.0 q.0 && e.beq p.1 q.1

pub pair_beq_iff {ℓ} :
    {A B : Type ℓ} (d : Eq A) (e : Eq B) (p q : A × B) → (pair_beq d e p q ≡ true) ↔ (p ≡ q)
pair_beq_iff d e p q = ground (arith, d.beq_iff p.0 q.0, e.beq_iff p.1 q.1)

instance abbrev pub pair_eq {ℓ} : {A B : Type ℓ} ⦃d : Eq A⦄ ⦃e : Eq B⦄ → Eq (A × B)
pair_eq ⦃d⦄ ⦃e⦄ = record { beq = pair_beq d e; beq_iff = pair_beq_iff d e }

abbrev pub Table {ℓ} : Type ℓ → Type ℓ → Type ℓ
Table K V = List (K × V)

pub ==-refl {ℓ} : {K : Type ℓ} ⦃e : Eq K⦄ (k : K) → (k == k) ≡ true
==-refl ⦃e⦄ k = (e.beq_iff k k).1 refl

abbrev pub changed {ℓ} : {V : Type ℓ} → (V → V) → Option V → Option V
changed change none = none
changed change (some v) = some (change v)

module _ {ℓ} {K V : Type ℓ} ⦃e : Eq K⦄ where
  abbrev pub lookup : K → Table K V → Option V
  lookup k [] = none
  lookup k ((j, v) ∷ t) = if j == k then some v else lookup k t

  abbrev pub upsert : K → V → Table K V → Table K V
  upsert k v [] = (k, v) ∷ []
  upsert k v ((j, w) ∷ t) = if j == k then (k, v) ∷ t else (j, w) ∷ upsert k v t

  -- `DELETE ... WHERE key = ?`
  abbrev pub delete : K → Table K V → Table K V
  delete k [] = []
  delete k ((j, w) ∷ t) = if j == k then delete k t else (j, w) ∷ delete k t

  -- A read after a write, at the written key and at every other one.
  pub lookup-upsert :
      (k j : K) (v : V) (t : Table K V)
      → lookup j (upsert k v t) ≡ (if k == j then some v else lookup j t)
  lookup-upsert k j v [] = refl
  lookup-upsert k j v ((i, w) ∷ t) =
      ground (arith, e.beq_iff k j, e.beq_iff i k, e.beq_iff i j, lookup-upsert k j v t)

  pub lookup-upsert_self : (k : K) (v : V) (t : Table K V) → lookup k (upsert k v t) ≡ some v
  lookup-upsert_self k v t = ground (arith, lookup-upsert k k v t, ==-refl k)

  pub lookup-upsert_ne :
      (k j : K) (v : V) (t : Table K V) → k ≢ j → lookup j (upsert k v t) ≡ lookup j t
  lookup-upsert_ne k j v t h = ground (arith, lookup-upsert k j v t, e.beq_iff k j)

  pub lookup-delete :
      (k j : K) (t : Table K V) → lookup j (delete k t) ≡ (if k == j then none else lookup j t)
  lookup-delete k j [] = ground arith
  lookup-delete k j ((i, w) ∷ t) =
      ground (arith, e.beq_iff k j, e.beq_iff i k, e.beq_iff i j, lookup-delete k j t)

  -- `UPDATE ... WHERE key = ?`
  abbrev pub modify : K → (V → V) → Table K V → Table K V
  modify k change [] = []
  modify k change ((j, w) ∷ t) = (if j == k then (j, change w) else (j, w)) ∷ modify k change t

  pub lookup-modify :
      (k j : K) (change : V → V) (t : Table K V)
      → lookup j (modify k change t) ≡ (if k == j then changed change (lookup j t) else lookup j t)
  lookup-modify k j change [] = ground arith
  lookup-modify k j change ((i, w) ∷ t) =
      ground (arith, e.beq_iff k j, e.beq_iff i k, e.beq_iff i j, lookup-modify k j change t)

-- A predicate of the row that a key reads, where it reads one.
abbrev pub OnRow {ℓ κ} : {V : Type ℓ} → (V → Type κ) → Option V → Type κ
OnRow P none = Unit
OnRow P (some v) = P v

-- At every key.
abbrev pub OnRows {ℓ κ} : {K V : Type ℓ} → ⦃e : Eq K⦄ → (V → Type κ) → Table K V → Type (ℓ ⊔ κ)
OnRows {K = K} P t = (k : K) → OnRow P (lookup k t)

OnRow-changed {ℓ κ} :
    {V : Type ℓ} (P : V → Type κ) (change : V → V) (o : Option V)
    → OnRow (λ v. P (change v)) o
    → OnRow P (changed change o)
OnRow-changed P change none h = tt
OnRow-changed P change (some v) h = h

module _ {ℓ κ} {K V : Type ℓ} ⦃e : Eq K⦄ (P : V → Type κ) where
  pub OnRows-upsert : (k : K) (v : V) (t : Table K V) → P v → OnRows P t → OnRows P (upsert k v t)
  OnRows-upsert k v t p h j = elim (Bool-cases (k == j)) [
    | inl same ↦ rw (lookup-upsert k j v t, same) p
    | inr other ↦ rw (lookup-upsert k j v t, other) (h j)
  ]

  pub OnRows-modify :
      (k : K) (change : V → V) (t : Table K V)
      → OnRow (λ v. P (change v)) (lookup k t)
      → OnRows P t
      → OnRows P (modify k change t)
  OnRows-modify k change t p h j = elim (Bool-cases (k == j)) [
    | inl same ↦
        rw (lookup-modify k j change t, same)
          (OnRow-changed P change (lookup j t)
            (subst (λ i. OnRow (λ v. P (change v)) (lookup i t)) ((e.beq_iff k j).0 same) p))
    | inr other ↦ rw (lookup-modify k j change t, other) (h j)
  ]

  -- A row that is written and then changed is seen after the change only.
  pub OnRows-modify-upsert :
      (k : K) (change : V → V) (v : V) (t : Table K V)
      → P (change v)
      → OnRows P t
      → OnRows P (modify k change (upsert k v t))
  OnRows-modify-upsert k change v t p h j = elim (Bool-cases (k == j)) [
    | inl same ↦ rw (lookup-modify k j change (upsert k v t), lookup-upsert k j v t, same) p
    | inr other ↦ rw (lookup-modify k j change (upsert k v t), lookup-upsert k j v t, other) (h j)
  ]

  -- What holds of all rows holds of the row that a key reads.
  pub OnRows-All : (t : Table K V) → All (λ (r : K × V). P r.1) t → OnRows P t
  OnRows-All [] h k = tt
  OnRows-All ((j, v) ∷ t) h k = elim (Bool-cases (j == k)) [
    | inl same ↦ rw same h.0
    | inr other ↦ rw other (OnRows-All t h.1 k)
  ]
