-- ===== src/Allocator/Refresh.antt =====
-- Scores from the journal, allocations from the scores, and their store: src/allocator/score.py,
-- `allocate` of src/allocator/allocator.py, src/allocator/store.py, and `_maybe_refresh_allocator` of
-- src/bot.py.
use forex_ea.Prelude.{
  ℕ, Bool, true, false, Option, none, some, List, [], ◌∷◌, ◌++◌, String, foldl, map, select, take,
  length, leb, ◌&&◌, if◌then◌else◌,
}
use forex_ea.Table.{Table, lookup, upsert, ◌==◌, string_eq, pair_eq}
use forex_ea.Text.{codes, le_text}
use forex_ea.Float.{Float}
use forex_ea.Execution.{is_sell}
use forex_ea.Journal.{Journal, Trade, is_closed}
use forex_ea.Bot.{Bot, is_due}
use forex_ea.Allocator.{AllocatorPolicy, StrategyScore, Allocation, Role, allocate_symbol}

-- `ORDER BY closed_at DESC`, where NULL comes last.
abbrev is_later : Option ℕ → Option ℕ → Bool
is_later none none = true
is_later none (some b) = false
is_later (some a) none = true
is_later (some a) (some b) = leb b a

abbrev role_text : Role → String
role_text Role.champion = "champion"
role_text Role.challenger = "challenger"
role_text Role.probe = "probe"
role_text Role.cold = "cold"

module _ {F : Type 0} ⦃f : Float F⦄ where
  open f use {nought, add, sub, div, neg, abs, lt, lit}

  abbrev latest_insert : Trade F → List (Trade F) → List (Trade F)
  latest_insert t [] = t ∷ []
  latest_insert t (u ∷ ts) =
      if is_later t.closed_at u.closed_at then t ∷ u ∷ ts else u ∷ latest_insert t ts

  abbrev latest_first : List (Trade F) → List (Trade F)
  latest_first [] = []
  latest_first (t ∷ ts) = latest_insert t (latest_first ts)

  abbrev is_scored : String → String → Trade F → Bool
  is_scored strategy symbol t = t.strategy == strategy && t.symbol == symbol && is_closed t.status

  -- The rows of the query of a pair.
  abbrev pub scored_rows : String → String → ℕ → Journal F → List (Trade F)
  scored_rows strategy symbol window j =
      take window (
        latest_first (select (is_scored strategy symbol) (map (λ (r : ℕ × Trade F). r.1) j.trades)))

  abbrev r_onto : Trade F → Option F → List F → List F
  r_onto t none rs = rs
  r_onto t (some exit_price) rs =
      let raw = sub exit_price t.entry_price in
      let move = if is_sell t.side then neg raw else raw in
      let risk_per_unit = abs (sub t.entry_price t.stop_loss) in
      if lt nought risk_per_unit then div move risk_per_unit ∷ rs else rs

  abbrev pub r_values : List (Trade F) → List F
  r_values [] = []
  r_values (t ∷ ts) = r_onto t t.exit_price (r_values ts)

  -- `sum(r_values) / len(r_values)`, 0 for none
  abbrev pub average : List F → F
  average [] = nought
  average (r ∷ rs) = div (foldl add nought (r ∷ rs)) (lit (length (r ∷ rs)) 0)

  abbrev pub win_rate_of : List (Trade F) → F
  win_rate_of [] = nought
  win_rate_of (t ∷ ts) =
      let wins = length (select (λ (u : Trade F). lt nought u.pnl) (t ∷ ts)) in
      div (lit wins 0) (lit (length (t ∷ ts)) 0)

  pub score_rows : String → String → List (Trade F) → StrategyScore F
  score_rows strategy symbol rows = record {
    strategy = strategy;
    symbol = symbol;
    sample_size = length rows;
    avg_r = average (r_values rows);
    win_rate = win_rate_of rows;
  }

  pub score_pairs : ℕ → Journal F → List (String × String) → List (StrategyScore F)
  unfolding score_rows
  score_pairs window j [] = []
  score_pairs window j ((strategy, symbol) ∷ pairs) =
      score_rows strategy symbol (scored_rows strategy symbol window j) ∷ score_pairs window j pairs

  abbrev pub group_of : Option (List (StrategyScore F)) → List (StrategyScore F)
  group_of none = []
  group_of (some group) = group

  -- `by_symbol.setdefault(s.symbol, []).append(s)`
  abbrev pub into_group :
      Table String (List (StrategyScore F))
      → StrategyScore F
      → Table String (List (StrategyScore F))
  into_group groups s = upsert s.symbol (group_of (lookup s.symbol groups) ++ s ∷ []) groups

  abbrev pub allocate_groups :
      AllocatorPolicy F → ℕ → Table String (List (StrategyScore F)) → List (Allocation F)
  allocate_groups p now [] = []
  allocate_groups p now ((symbol, group) ∷ groups) =
      allocate_symbol p now symbol group ++ allocate_groups p now groups

  -- `(a.symbol, a.strategy) <= (b.symbol, b.strategy)`
  abbrev pub le_key : Allocation F → Allocation F → Bool
  le_key a b =
      if a.symbol == b.symbol
      then le_text (codes a.strategy) (codes b.strategy)
      else le_text (codes a.symbol) (codes b.symbol)

  -- A stable sort.
  abbrev pub insert_row : Allocation F → List (Allocation F) → List (Allocation F)
  insert_row a [] = a ∷ []
  insert_row a (b ∷ rows) = if le_key a b then a ∷ b ∷ rows else b ∷ insert_row a rows

  abbrev pub sort_rows : List (Allocation F) → List (Allocation F)
  sort_rows [] = []
  sort_rows (a ∷ rows) = insert_row a (sort_rows rows)

  unfoldable pub allocate : AllocatorPolicy F → ℕ → List (StrategyScore F) → List (Allocation F)
  allocate p now scores = sort_rows (allocate_groups p now (foldl into_group [] scores))

  -- The store of allocations.
  pub upsert_many :
      List (Allocation F)
      → Table (String × String) (Allocation F)
      → Table (String × String) (Allocation F)
  upsert_many rows table =
      foldl (λ t (a : Allocation F). upsert (a.strategy, a.symbol) a t) table rows

  -- `self.state.allocations`, from the rows.
  abbrev weights_of : List (Allocation F) → Table (String × String) (String × F)
  weights_of rows =
      foldl (λ t (a : Allocation F). upsert (a.strategy, a.symbol) (role_text a.role, a.weight) t)
        [] rows

  -- The bot, the tick of its last refresh, and the store. Without pairs only the tick is noted.
  pub maybe_refresh_allocator :
      {E : Type 0}
      → AllocatorPolicy F
      → ℕ
      → ℕ
      → ℕ
      → List (String × String)
      → ℕ
      → Option ℕ
      → Table (String × String) (Allocation F)
      → Bot F E
      → Bot F E × Option ℕ × Table (String × String) (Allocation F)
  unfolding allocate score_pairs upsert_many
  maybe_refresh_allocator p now refresh_ticks window [] tick_count last store b =
      if is_due last tick_count refresh_ticks then (b, some tick_count, store) else (b, last, store)
  maybe_refresh_allocator p now refresh_ticks window (pair ∷ pairs) tick_count last store b =
      let rows = allocate p now (score_pairs window b.journal (pair ∷ pairs)) in
      if is_due last tick_count refresh_ticks
      then (record b { allocations = weights_of rows }, some tick_count, upsert_many rows store)
      else (b, last, store)
