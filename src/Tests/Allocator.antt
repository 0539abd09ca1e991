-- ===== src/Tests/Allocator.antt =====
-- Variants of a symbol, one of them with too few trades, and two of another symbol.
use forex_ea.Prelude.{ℕ, ◌≡◌, refl, List, [], ◌∷◌, select, All, String}
use forex_ea.Prelude.Int.{ℤ, pos, negsuc}
use forex_ea.Float.{◌≼◌}
use forex_ea.Float.Fixed.{fixed_float, Fixed-IsOrdered}
use forex_ea.Allocator.{AllocatorPolicy, StrategyScore, is_eligible, allocate_symbol}
use forex_ea.Allocator.Refresh.{allocate}
use forex_ea.Allocator.Pairing.{rows_of, scores_of, rows_of-allocate}
use forex_ea.Allocator.Champion.{champions, crowned, best_of_all, IsCrown, allocate_symbol-crowned}

abbrev policy : AllocatorPolicy ℤ
policy = record {
  min_samples = 15;
  challenger_tolerance = pos 2_000;
  champion_weight = pos 10_000;
  challenger_weight = pos 5_000;
  probe_weight = pos 1_000;
  floor_avg_r = negsuc 999;
}

abbrev score : String → ℕ → ℤ → StrategyScore ℤ
score strategy samples avg_r = record {
  strategy = strategy;
  symbol = "EURUSD";
  sample_size = samples;
  avg_r = avg_r;
  win_rate = pos 5_000;
}

abbrev group : List (StrategyScore ℤ)
group =
    score "macd_cross" 20 (pos 1_000)
    ∷ score "ema_pullback" 3 (pos 9_000)
    ∷ score "adx_breakout" 40 (pos 4_000)
    ∷ []

allocate_symbol-crowned_example :
    (champions (allocate_symbol policy 0 "EURUSD" group)
      ≡ crowned policy (best_of_all (select (is_eligible policy) group)))
    × All
        (IsCrown policy (best_of_all (select (is_eligible policy) group)))
        (allocate_symbol policy 0 "EURUSD" group)
    × All
        (λ (b : StrategyScore ℤ).
          All (λ (s : StrategyScore ℤ). s.avg_r ≼ b.avg_r) (select (is_eligible policy) group))
        (best_of_all (select (is_eligible policy) group))
allocate_symbol-crowned_example =
    allocate_symbol-crowned Fixed-IsOrdered policy 0 "EURUSD" group (refl, (refl, tt))

abbrev scores : List (StrategyScore ℤ)
scores =
    score "macd_cross" 20 (pos 1_000)
    ∷ record (score "ema_pullback" 30 (negsuc 9_000)) { symbol = "USDJPY" }
    ∷ score "ema_pullback" 3 (pos 9_000)
    ∷ record (score "macd_cross" 4 (pos 0)) { symbol = "USDJPY" }
    ∷ []

rows_of-allocate_example :
    rows_of ("ema_pullback", "USDJPY") (allocate policy 0 scores)
    ≡ scores_of ("ema_pullback", "USDJPY") scores
rows_of-allocate_example = rows_of-allocate ("ema_pullback", "USDJPY") policy 0 scores
