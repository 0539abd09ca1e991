-- ===== src/Correlation.antt =====
-- The correlation throttle: src/correlation/throttle.py over the pairs of src/correlation/store.py.
pub mod Monotone
pub mod Decision
pub mod Pairs
use mathlib.Core.Option
use forex_ea.Prelude.{
  Bool, true, false, Option, none, some, List, [], ◌∷◌, String, not, ◌||◌, foldl, if◌then◌else◌,
  take, is_empty,
}
use forex_ea.Table.{Table, lookup, upsert, ◌==◌, string_eq, pair_eq}
use forex_ea.Text.{codes, le_text}
use forex_ea.Float.{Float, max_of}
use forex_ea.Execution.{SignalType, same_type}

pub record OpenPosition (F : Type 0) : Type 0 where
  pub symbol : String
  pub side : SignalType
  pub risk_pct : F

pub record ThrottlePolicy (F : Type 0) : Type 0 where
  pub enabled : Bool
  pub max_correlated_heat_pct : F
  pub correlation_floor : F
  pub unknown_pair_correlation : F

-- The texts of a decision: the projected heat, the limit and the greatest contributors.
pub data ThrottleReason (F : Type 0) : Type 0 where
  throttle_inactive : ThrottleReason F
  over_limit : F → F → List (String × F) → ThrottleReason F
  within_limit : F → ThrottleReason F

pub record ThrottleDecision (F : Type 0) : Type 0 where
  pub approved : Bool
  pub effective_heat : F
  pub reason : ThrottleReason F
  pub contributors : List (String × F)

abbrev pub ordered : String → String → String × String
ordered a b = if le_text (codes a) (codes b) then (a, b) else (b, a)

-- The table `correlation_pairs`.
abbrev pub PairTable : Type 0 → Type 0
PairTable F = Table (String × String) F

module _ {F : Type 0} ⦃f : Float F⦄ where
  open f use {nought, add, mul, neg, abs, lt, lit}

  -- One row of `upsert_matrix`.
  pub upsert_pair : String → String → F → PairTable F → PairTable F
  upsert_pair a b value store = upsert (ordered a b) value store

  unfoldable pub pair : PairTable F → String → String → Option F
  pair store a b = if a == b then some (lit 1 0) else lookup (ordered a b) store

  abbrev signed : Bool → F → F
  signed same x = if same then x else neg x

  unfoldable pub correlation :
      ThrottlePolicy F → PairTable F → String → SignalType → OpenPosition F → F
  unfolding pair
  correlation pol store candidate side p =
      let same = same_type p.side side in
      if p.symbol == candidate
      then signed same (lit 1 0)
      else signed same (Option.get_or (pair store candidate p.symbol) pol.unknown_pair_correlation)

  unfoldable pub contribution :
      ThrottlePolicy F → PairTable F → String → SignalType → OpenPosition F → F
  unfolding correlation
  contribution pol store candidate side p =
      let corr = correlation pol store candidate side p in
      max_of nought (mul p.risk_pct (if lt (abs corr) pol.correlation_floor then nought else corr))

  -- The loop over the open positions.
  unfoldable pub contributions :
      ThrottlePolicy F
      → PairTable F
      → String
      → SignalType
      → List (OpenPosition F)
      → List (String × F)
  contributions pol store candidate side [] = []
  contributions pol store candidate side (p ∷ ps) =
      let contrib = contribution pol store candidate side p in
      let rest = contributions pol store candidate side ps in
      if lt nought contrib then (p.symbol, contrib) ∷ rest else rest

  abbrev add_heat : F → String × F → F
  add_heat s (_, c) = add s c

  abbrev pub heat : List (String × F) → F
  heat cs = foldl add_heat nought cs

  -- `sorted(contributions, key=lambda t: -t[1])`, which is stable
  insert_by : String × F → List (String × F) → List (String × F)
  insert_by c [] = c ∷ []
  insert_by c (d ∷ ds) = if lt (neg d.1) (neg c.1) then d ∷ insert_by c ds else c ∷ d ∷ ds

  pub sorted : List (String × F) → List (String × F)
  unfolding insert_by
  sorted [] = []
  sorted (c ∷ cs) = insert_by c (sorted cs)

  unfoldable pub decide :
      ThrottlePolicy F
      → PairTable F
      → String
      → SignalType
      → F
      → List (OpenPosition F)
      → ThrottleDecision F
  decide pol store candidate side risk positions =
      let cs = contributions pol store candidate side positions in
      let projected = add (heat cs) risk in
      if not pol.enabled || is_empty positions
      then record {
        approved = true;
        effective_heat = nought;
        reason = ThrottleReason.throttle_inactive;
        contributors = [];
      }
      else if lt pol.max_correlated_heat_pct projected
      then record {
        approved = false;
        effective_heat = heat cs;
        reason =
            ThrottleReason.over_limit projected pol.max_correlated_heat_pct (take 3 (sorted cs));
        contributors = cs;
      }
      else record {
        approved = true;
        effective_heat = heat cs;
        reason = ThrottleReason.within_limit projected;
        contributors = cs;
      }
