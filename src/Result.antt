-- ===== src/Result.antt =====
-- Python exceptions as values: what a call returns, or the exception that it raises.
use forex_ea.Prelude.{◌≡◌, refl, ◌⊎◌, inl, inr, Bool, true, false, if◌then◌else◌}

pub data Raised : Type 0 where
  value_error zero_division_error key_error integrity_error runtime_error duplicate_admin_error
        last_admin_error :
      Raised

pub data Result {ℓ} (A : Type ℓ) : Type ℓ where
  ok : A → Result A
  err : Raised → Result A

-- A call whose result the rest of the body uses, and a statement that only may raise.
infixl 5 ◌>>=◌ ◌>>◌
abbrev pub ◌>>=◌ {ℓ κ} :
    {A : Type ℓ} {B : Type κ} (call : Result A) (rest : A → Result B) → Result B
err raised >>= rest = err raised
ok value >>= rest = rest value

abbrev pub ◌>>◌ {κ} : {B : Type κ} (statement : Result (Unit {0})) (rest : Result B) → Result B
err raised >> rest = err raised
ok done >> rest = rest

abbrev pub raise_if : Bool → Raised → Result (Unit {0})
raise_if true e = err e
raise_if false e = ok tt

pub ok_injective {ℓ} : {A : Type ℓ} {a b : A} → ok a ≡ ok b → a ≡ b
ok_injective h = cc h

-- A call that returns has returned at each of its steps.
pub returned {ℓ κ} :
    {A : Type ℓ} {B : Type κ} (m : Result A) (k : A → Result B) (b : B)
    → (m >>= k) ≡ ok b
    → (a : A) × (m ≡ ok a) × (k a ≡ ok b)
returned (ok a) k b h = (a, refl, h)
returned (err e) k b h = cc h

-- The call returns, and what it returns meets the predicate.
abbrev pub ReturnsWith {ℓ} : {A : Type ℓ} → (A → Type ℓ) → Result A → Type ℓ
ReturnsWith {A = A} P r = (a : A) × (r ≡ ok a) × P a

pub ReturnsWith->>= {ℓ} :
    {A B : Type ℓ} {P : A → Type ℓ} {Q : B → Type ℓ} (m : Result A) (k : A → Result B)
    → ReturnsWith P m
    → ((a : A) → P a → ReturnsWith Q (k a))
    → ReturnsWith Q (m >>= k)
ReturnsWith->>= m k (a, e, p) rest = let (b, e', q) = rest a p in (b, rw e e', q)

pub ReturnsWith-if {ℓ} :
    {A : Type ℓ} {P : A → Type ℓ} (b : Bool) (r s : Result A)
    → ReturnsWith P r
    → ReturnsWith P s
    → ReturnsWith P (if b then r else s)
ReturnsWith-if true r s h k = h
ReturnsWith-if false r s h k = k

pub Result-cases {ℓ} :
    {A : Type ℓ} (r : Result A) → ((e : Raised) × (r ≡ err e)) ⊎ ((a : A) × (r ≡ ok a))
Result-cases (err e) = inl (e, refl)
Result-cases (ok a) = inr (a, refl)
