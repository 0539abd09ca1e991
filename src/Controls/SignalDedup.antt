-- ===== src/Controls/SignalDedup.antt =====
-- The bars on which the bot has opened a trade: src/execution/signal_dedup.py. A bar is named by its
-- instant, and the time stamps of equal instants are written alike.
use forex_ea.Prelude.{
  ℕ, ◌≡◌, ◌≢◌, ◌⊎◌, refl, ap, ◌∙◌, Bool, true, false, Option, none, some, List, [], ◌∷◌, String,
  foldl, nat_beq, nat_beq_iff, Bool-cases, inl, inr, if◌then◌else◌,
}
use forex_ea.Table.{
  Table, lookup, upsert, ◌==◌, string_eq, pair_eq, lookup-upsert, lookup-upsert_self,
}
use forex_ea.Execution.{SignalType}

-- The key (strategy, symbol), and the columns `last_bar_ts` and `last_side`.
abbrev pub DedupTable : Type 0
DedupTable = Table (String × String) (ℕ × SignalType)

abbrev is_bar : ℕ → Option (ℕ × SignalType) → Bool
is_bar ts none = false
is_bar ts (some row) = nat_beq row.0 ts

pub already_acted : String → String → ℕ → DedupTable → Bool
already_acted strategy symbol bar_ts table = is_bar bar_ts (lookup (strategy, symbol) table)

pub remember : String → String → ℕ → SignalType → DedupTable → DedupTable
remember strategy symbol bar_ts side table = upsert (strategy, symbol) (bar_ts, side) table

-- A bar that is remembered counts as acted on.
pub already_acted-remember :
    (strategy symbol : String) (bar_ts : ℕ) (side : SignalType) (table : DedupTable)
    → already_acted strategy symbol bar_ts (remember strategy symbol bar_ts side table) ≡ true
unfolding already_acted remember
already_acted-remember strategy symbol bar_ts side table =
    rw (lookup-upsert_self (strategy, symbol) (bar_ts, side) table)
      ((nat_beq_iff bar_ts bar_ts).1 refl)

abbrev pub IsOtherKey : String × String → String × String → Type 0
IsOtherKey a b = a ≢ b

-- A bar that counts as acted on still does when another bar of another key is remembered, or the bar
-- itself again.
pub already_acted-remember_other :
    (strategy symbol strategy' symbol' : String) (bar_ts ts : ℕ) (side : SignalType)
    (table : DedupTable)
    → IsOtherKey (strategy', symbol') (strategy, symbol) ⊎ (ts ≡ bar_ts)
    → already_acted strategy symbol bar_ts table ≡ true
    → already_acted strategy symbol bar_ts (remember strategy' symbol' ts side table) ≡ true
unfolding already_acted remember
already_acted-remember_other strategy symbol strategy' symbol' bar_ts ts side table other h =
    let key' : String × String = (strategy', symbol') in
    let key : String × String = (strategy, symbol) in
    let seen = lookup-upsert key' key (ts, side) table in
    elim (Bool-cases (key' == key)) [
      | inl same ↦
          rw (seen, same)
            (elim other [
              | inl differs ↦ absurd (differs ((pair_eq.beq_iff key' key).0 same))
              | inr again ↦ (nat_beq_iff ts bar_ts).1 again
            ])
      | inr apart ↦ rw (seen, apart) h
    ]

pub record Memory : Type 0 where
  pub strategy : String
  pub symbol : String
  pub bar_ts : ℕ
  pub side : SignalType

abbrev pub after_memories : DedupTable → List Memory → DedupTable
after_memories table ms =
    foldl (λ t (m : Memory). remember m.strategy m.symbol m.bar_ts m.side t) table ms

-- The bar of the last memory of the key.
abbrev pub last_bar : String × String → Option ℕ → List Memory → Option ℕ
last_bar key known [] = known
last_bar key known (m ∷ ms) =
    last_bar key (if (m.strategy, m.symbol) == key then some m.bar_ts else known) ms

abbrev pub bar_of : Option (ℕ × SignalType) → Option ℕ
bar_of none = none
bar_of (some row) = some row.0

abbrev pub same_bar : ℕ → Option ℕ → Bool
same_bar ts none = false
same_bar ts (some bar) = nat_beq bar ts

is_bar-bar_of : (ts : ℕ) (row : Option (ℕ × SignalType)) → is_bar ts row ≡ same_bar ts (bar_of row)
is_bar-bar_of ts none = refl
is_bar-bar_of ts (some row) = refl

bar_of-if :
    (b : Bool) (row : ℕ × SignalType) (other : Option (ℕ × SignalType))
    → bar_of (if b then some row else other) ≡ (if b then some row.0 else bar_of other)
bar_of-if true row other = refl
bar_of-if false row other = refl

-- After any memories, a bar counts as acted on for a strategy and a symbol exactly when it is the bar
-- of the last memory of that strategy and symbol; memories of other keys do not matter.
already_acted_last :
    (strategy symbol : String) (bar_ts : ℕ) (ms : List Memory) (table : DedupTable)
    → already_acted strategy symbol bar_ts (after_memories table ms)
      ≡ same_bar bar_ts (last_bar (strategy, symbol) (bar_of (lookup (strategy, symbol) table)) ms)
unfolding already_acted remember
already_acted_last strategy symbol bar_ts [] table = is_bar-bar_of bar_ts _
already_acted_last strategy symbol bar_ts (m ∷ ms) table =
    let key : String × String = (strategy, symbol) in
    let row : ℕ × SignalType = (m.bar_ts, m.side) in
    already_acted_last strategy symbol bar_ts ms
      (remember m.strategy m.symbol m.bar_ts m.side table)
    ∙ ap (λ known. same_bar bar_ts (last_bar key known ms))
        (ap bar_of (lookup-upsert (m.strategy, m.symbol) key row table)
          ∙ bar_of-if ((m.strategy, m.symbol) == key) row (lookup key table))
