-- ===== src/Allocator.antt =====
-- The champion of a symbol and the weights of its variants: `_allocate_symbol` of
-- src/allocator/allocator.py. `s is champion` compares positions among the eligible scores, which are
-- distinct objects.
pub mod Champion
pub mod Refresh
pub mod Pairing
use forex_ea.Prelude.{
  ℕ, suc, ◌-◌, Bool, true, false, List, [], ◌∷◌, ◌++◌, String, not, ltb, leb, nat_beq, select, map,
  length, if◌then◌else◌,
}
use forex_ea.Float.{Float}

pub record AllocatorPolicy (F : Type 0) : Type 0 where
  pub min_samples : ℕ
  pub challenger_tolerance : F
  pub champion_weight : F
  pub challenger_weight : F
  pub probe_weight : F
  pub floor_avg_r : F

-- The fields of a score that the allocator reads.
pub record StrategyScore (F : Type 0) : Type 0 where
  pub strategy : String
  pub symbol : String
  pub sample_size : ℕ
  pub avg_r : F
  pub win_rate : F

pub data Role : Type 0 where
  champion challenger probe cold : Role

-- The texts of a note: what they format.
pub data Note (F : Type 0) : Type 0 where
  needs_more : ℕ → Note F
  below_floor : F → Note F
  best_of : ℕ → String → Note F
  within_tolerance : F → F → Note F
  trailing : F → Note F

pub record Allocation (F : Type 0) : Type 0 where
  pub strategy : String
  pub symbol : String
  pub role : Role
  pub weight : F
  pub sample_size : ℕ
  pub avg_r : F
  pub win_rate : F
  pub note : Note F
  pub updated_at : ℕ

module _ {F : Type 0} ⦃f : Float F⦄ where
  open f use {nought, sub, lt, le}

  abbrev pub make : StrategyScore F → Role → F → Note F → ℕ → Allocation F
  make s role weight note now = record {
    strategy = s.strategy;
    symbol = s.symbol;
    role = role;
    weight = weight;
    sample_size = s.sample_size;
    avg_r = s.avg_r;
    win_rate = s.win_rate;
    note = note;
    updated_at = now;
  }

  -- `max(eligible, key=...)`: the first of the greatest, with its position; `i` scores were seen.
  pub best_from : ℕ → ℕ × StrategyScore F → List (StrategyScore F) → ℕ × StrategyScore F
  best_from i best [] = best
  best_from i best (s ∷ ss) =
      let newer = best_from (suc i) (i, s) ss in
      let older = best_from (suc i) best ss in if lt best.1.avg_r s.avg_r then newer else older

  abbrev pub is_eligible : AllocatorPolicy F → StrategyScore F → Bool
  is_eligible p s = leb p.min_samples s.sample_size

  abbrev cold_row : AllocatorPolicy F → ℕ → StrategyScore F → Allocation F
  cold_row p now s = make s Role.cold nought (Note.needs_more (p.min_samples - s.sample_size)) now

  abbrev probe_row : AllocatorPolicy F → ℕ → StrategyScore F → Allocation F
  probe_row p now s = make s Role.probe p.probe_weight (Note.below_floor p.floor_avg_r) now

  abbrev ranked : AllocatorPolicy F → ℕ → StrategyScore F → StrategyScore F → Allocation F
  ranked p now best s =
      let gap = sub best.avg_r s.avg_r in
      if le gap p.challenger_tolerance
      then make s Role.challenger p.challenger_weight
          (Note.within_tolerance p.challenger_tolerance gap) now
      else make s Role.probe p.probe_weight (Note.trailing gap) now

  -- The last loop; the champion stands at position `j`, the first score of the list at `i`.
  pub crown :
      AllocatorPolicy F
      → ℕ
      → ℕ
      → String
      → ℕ
      → StrategyScore F
      → ℕ
      → List (StrategyScore F)
      → List (Allocation F)
  crown p now n symbol j best i [] = []
  crown p now n symbol j best i (s ∷ ss) =
      (if nat_beq i j
        then make s Role.champion p.champion_weight (Note.best_of n symbol) now
        else ranked p now best s)
      ∷ crown p now n symbol j best (suc i) ss

  pub allocate_eligible :
      AllocatorPolicy F → ℕ → String → List (StrategyScore F) → List (Allocation F)
  unfolding best_from crown
  allocate_eligible p now symbol [] = []
  allocate_eligible p now symbol (s ∷ ss) =
      let (j, best) = best_from 1 (0, s) ss in
      if lt best.avg_r p.floor_avg_r
      then map (probe_row p now) (s ∷ ss)
      else crown p now (length (s ∷ ss)) symbol j best 0 (s ∷ ss)

  pub allocate_symbol :
      AllocatorPolicy F → ℕ → String → List (StrategyScore F) → List (Allocation F)
  unfolding allocate_eligible
  allocate_symbol p now symbol group =
      map (cold_row p now) (select (λ s. not (is_eligible p s)) group)
      ++ allocate_eligible p now symbol (select (is_eligible p) group)
