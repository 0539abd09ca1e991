-- ===== src/PropFirm/Permit.antt =====
-- What an approval of the guard means: `PropFirmGuard.check` of src/propfirm/guard.py.
use forex_ea.Prelude.{◌≡◌, ◌⊎◌, Bool, true, false, Option, none, some, arith}
use forex_ea.Float.{Float}
use forex_ea.PropFirm.{PropFirmPolicy, PropFirmState, check, over_cap, by_cap}

module _ {F : Type 0} ⦃f : Float F⦄ where
  open f use {nought, lt}

  abbrev pub IsUnderCap : Option F → F → Type 0
  IsUnderCap none lots = Unit
  IsUnderCap (some cap) lots = lt cap lots ≡ false

  -- The challenge account is alive today, and the order keeps its rules.
  abbrev pub IsPermitted : PropFirmPolicy F → PropFirmState F → Bool → F → Type 0
  IsPermitted pol s has_stop lots =
      (s.killed_permanently ≡ false)
      × (s.killed_today ≡ false)
      × ((pol.require_stop_loss ≡ false) ⊎ (has_stop ≡ true))
      × IsUnderCap pol.max_lot_size lots

  under_cap :
      (cap : Option F) (lots : F)
      → (by_cap lots (over_cap cap lots)).approved ≡ true
      → IsUnderCap cap lots
  unfolding over_cap
  under_cap none lots h = tt
  under_cap (some cap) lots h = ground arith

  pub check-IsPermitted :
      (pol : PropFirmPolicy F) (s : PropFirmState F) (has_stop : Bool) (lots : F)
      → (check pol (some s) has_stop lots).approved ≡ true
      → IsPermitted pol s has_stop lots
  unfolding check
  check-IsPermitted pol s has_stop lots h = ground (arith, under_cap pol.max_lot_size lots)
