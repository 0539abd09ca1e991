-- ===== src/Risk/Sizing/Bounds.antt =====
-- What `lot_size_from_risk` of src/risk/position_sizing.py returns and raises.
use forex_ea.Prelude.{◌≡◌, refl, ◌⊎◌, true, false, ◌&&◌, arith, inl, inr, Bool-cases}
use forex_ea.Float.{Float, IsOrdered, IsNumber, ◌≼◌, ◌≺◌, min_of}
use forex_ea.Result.{Result, ok, err, Raised}
use forex_ea.Risk.Sizing.{LotLimits, lot_size_from_risk, lots_of, stepped_of}

-- The quotients up to 10¹⁵, below 2⁵⁰.
abbrev pub IsSmall : {F : Type 0} → ⦃f : Float F⦄ → F → F → Type 0
IsSmall ⦃f⦄ x s = f.abs (f.div x s) ≼ f.lit 1_000_000_000_000_000 0

-- Floor division followed by the multiplication does not exceed the dividend where the quotient is
-- small: there Python's `//` gives the floor of the exact quotient, and the product with it, at most the
-- dividend, is still at most the dividend when it is rounded. (For greater quotients this fails.)
pub record IsFloored (F : Type 0) ⦃f : Float F⦄ : Type 0 where
  pub floor_le :
      (x s : F)
      → f.nought ≺ s
      → IsSmall x s
      → IsNumber (f.mul (f.floor_div x s) s)
      → f.mul (f.floor_div x s) s ≼ x

module _ {F : Type 0} ⦃f : Float F⦄ where
  open f use {nought, mul, div, round_cents, lt, le, eq, lit}

  -- The lots are none, or within the maximum and the risk budget.
  abbrev pub IsWithin : LotLimits F → F → F → Type 0
  IsWithin lim raw lots = (lots ≡ nought) ⊎ ((lots ≼ lim.max_lot) × (lots ≼ raw))

  abbrev pub IsSized : LotLimits F → F → F → F → F → Result F → Type 0
  IsSized lim balance risk stop pip_value (err Raised.value_error) =
      (stop ≼ nought) ⊎ ((lt nought risk && lt risk (lit 1 0)) ≡ false)
  IsSized lim balance risk stop pip_value (err Raised.zero_division_error) =
      (eq (mul stop pip_value) nought ≡ true) ⊎ (eq lim.lot_step nought ≡ true)
  IsSized lim balance risk stop pip_value (err Raised.key_error) = ⊥
  IsSized lim balance risk stop pip_value (err Raised.integrity_error) = ⊥
  IsSized lim balance risk stop pip_value (err Raised.runtime_error) = ⊥
  IsSized lim balance risk stop pip_value (err Raised.duplicate_admin_error) = ⊥
  IsSized lim balance risk stop pip_value (err Raised.last_admin_error) = ⊥
  IsSized lim balance risk stop pip_value (ok lots) =
      IsWithin lim (div (mul balance risk) (mul stop pip_value)) lots

  module _ (laws : IsOrdered F) (floored : IsFloored F) where
    open laws use {le_of_lt, le_trans, le_of_not_lt, numbers_of_le}

    min_of-le : (a b : F) → IsNumber a → IsNumber b → (min_of a b ≼ a) × (min_of a b ≼ b)
    min_of-le a b n m = ground (arith, le_of_lt b a, le_of_not_lt b a m n)

    lots_of-IsWithin :
        (lim : LotLimits F) (raw : F)
        → nought ≺ lim.lot_step
        → IsNumber lim.max_lot
        → IsSmall raw lim.lot_step
        → round_cents (stepped_of lim raw) ≼ stepped_of lim raw
        → IsWithin lim raw (lots_of lim raw)
    unfolding lots_of
    lots_of-IsWithin lim raw step top small_raw rounds =
        let stepped = stepped_of lim raw in
        let (r, s) = numbers_of_le _ _ rounds in
        let below = floored.floor_le raw lim.lot_step step small_raw s in
        let (in_max, in_round) = min_of-le lim.max_lot (round_cents stepped) top r in
        elim (Bool-cases (lt stepped lim.min_lot)) [
          | inl small ↦ rw small (inl refl)
          | inr large ↦
              rw large (inr (in_max, le_trans _ _ _ in_round (le_trans _ _ _ rounds below)))
        ]

    -- The lots never risk more than the budget: they are none, or at most the maximum and at most the
    -- budget divided by the risk per lot, if this is at most 10¹⁵ steps and rounding the stepped lots to
    -- cents does not raise them.
    -- A ValueError comes only from a stop distance that is not positive or a risk outside ]0, 1[, and
    -- a ZeroDivisionError only from a lot without risk or a step of 0.
    pub lot_size_from_risk-IsSized :
        (lim : LotLimits F) (balance risk stop pip_value : F)
        → nought ≺ lim.lot_step
        → IsNumber lim.max_lot
        → IsSmall (div (mul balance risk) (mul stop pip_value)) lim.lot_step
        → (let stepped = stepped_of lim (div (mul balance risk) (mul stop pip_value)) in
            round_cents stepped ≼ stepped)
        → IsSized lim balance risk stop pip_value
            (lot_size_from_risk lim balance risk stop pip_value)
    unfolding lot_size_from_risk
    lot_size_from_risk-IsSized lim balance risk stop pip_value step top small_raw rounds =
        let fits = lots_of-IsWithin lim _ step top small_raw rounds in
        elim (Bool-cases (le stop nought)) [
          | inl bad ↦ rw bad (inl bad)
          | inr good ↦ elim (Bool-cases (lt nought risk && lt risk (lit 1 0))) [
            | inl inside ↦ elim (Bool-cases (eq (mul stop pip_value) nought)) [
              | inl zero ↦ rw (good, inside, zero) (inl zero)
              | inr nonzero ↦ elim (Bool-cases (eq lim.lot_step nought)) [
                | inl flat ↦ rw (good, inside, nonzero, flat) (inr flat)
                | inr steps ↦ rw (good, inside, nonzero, steps) fits
              ]
            ]
            | inr outside ↦ rw (good, outside) (inr outside)
          ]
        ]
