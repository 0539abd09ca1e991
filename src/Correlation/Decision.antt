-- ===== src/Correlation/Decision.antt =====
-- What an approval of the throttle means: `PortfolioThrottle.decide` of src/correlation/throttle.py.
use forex_ea.Prelude.{◌≡◌, ◌⊎◌, true, false, not, ◌||◌, List, String, arith, is_empty}
use forex_ea.Float.{Float}
use forex_ea.Execution.{SignalType}
use forex_ea.Correlation.{OpenPosition, ThrottlePolicy, PairTable, contributions, heat, decide}

module _ {F : Type 0} ⦃f : Float F⦄ where
  open f use {add, lt}

  -- The throttle is off, or the heat that the positions add stays within its limit.
  abbrev pub IsUncorrelated :
      ThrottlePolicy F → PairTable F → String → SignalType → F → List (OpenPosition F) → Type 0
  IsUncorrelated pol store symbol side risk positions =
      ((not pol.enabled || is_empty positions) ≡ true)
      ⊎ (lt pol.max_correlated_heat_pct
            (add (heat (contributions pol store symbol side positions)) risk)
          ≡ false)

  pub decide-IsUncorrelated :
      (pol : ThrottlePolicy F) (store : PairTable F) (symbol : String) (side : SignalType)
      (risk : F) (positions : List (OpenPosition F))
      → (decide pol store symbol side risk positions).approved ≡ true
      → IsUncorrelated pol store symbol side risk positions
  unfolding decide
  decide-IsUncorrelated pol store symbol side risk positions h = ground arith
