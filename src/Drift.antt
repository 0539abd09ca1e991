-- ===== src/Drift.antt =====
-- The drift of live trading from the baselines: src/drift/monitor.py, with the writes of the store of
-- src/drift/baseline.py. The trades of a variant are read as the allocator's scores read them. The
-- source of a baseline and the instant of its computation, which nothing reads, are left out.
use forex_ea.Prelude.{
  ℕ, Option, none, some, List, [], ◌∷◌, ◌++◌, String, map, length, ltb, not, ◌-◌, if◌then◌else◌,
}
use forex_ea.Table.{Table, upsert, delete, string_eq, pair_eq}
use forex_ea.Float.{Float, max_of}
use forex_ea.Journal.{Journal, Trade}
use forex_ea.Allocator.Refresh.{scored_rows, r_values, average, win_rate_of}

pub record DriftConfig (F : Type 0) : Type 0 where
  pub live_trades_window : ℕ
  pub min_live_trades : ℕ
  pub warn_delta : F
  pub danger_delta : F

pub record Baseline (F : Type 0) : Type 0 where
  pub strategy : String
  pub symbol : String
  pub trade_count : ℕ
  pub win_rate : F
  pub avg_r : F
  pub avg_trades_per_day : F

-- The names "win_rate", "avg_r" and "trades_per_day".
pub data MetricName : Type 0 where
  win_rate avg_r trades_per_day : MetricName

pub record MetricDelta (F : Type 0) : Type 0 where
  pub name : MetricName
  pub baseline : F
  pub live : F
  pub delta : F
  pub delta_pct : F

pub data DriftStatus : Type 0 where
  ok warn danger unknown : DriftStatus

-- What the parts of a note format: the delta of the win rate in points, and that of the average R.
pub data DriftBit (F : Type 0) : Type 0 where
  win_rate_off avg_r_off : F → DriftBit F

pub data DriftNote (F : Type 0) : Type 0 where
  too_few : ℕ → ℕ → DriftNote F
  tracking rate_drifting : DriftNote F
  off : List (DriftBit F) → DriftNote F

pub record DriftReport (F : Type 0) : Type 0 where
  pub strategy : String
  pub symbol : String
  pub status : DriftStatus
  pub live_trade_count : ℕ
  pub baseline : Option (Baseline F)
  pub metrics : List (MetricDelta F)
  pub note : DriftNote F

pub record LiveMetrics (F : Type 0) : Type 0 where
  pub count : ℕ
  pub win_rate : F
  pub avg_r : F
  pub trades_per_day : F

-- `rows[-1]["closed_at"]`, where `closed_at` is the one of a row before the rows.
abbrev last_closed_at : {F : Type 0} → Option ℕ → List (Trade F) → Option ℕ
last_closed_at closed_at [] = closed_at
last_closed_at closed_at (t ∷ ts) = last_closed_at t.closed_at ts

module _ {F : Type 0} ⦃f : Float F⦄ where
  open f use {nought, sub, mul, div, abs, le, eq, lit}

  -- From the oldest row's closing to the newest one's, in microseconds; a day at least.
  abbrev span_days : Option ℕ → Option ℕ → F
  span_days (some first) (some last) = max_of (lit 1 0) (div (lit (last - first) 6) (lit 86_400 0))
  span_days none last = lit 1 0
  span_days (some first) none = lit 1 0

  abbrev metrics_of : List (Trade F) → LiveMetrics F
  metrics_of [] = record { count = 0; win_rate = nought; avg_r = nought; trades_per_day = nought }
  metrics_of (t ∷ ts) = record {
    count = length (t ∷ ts);
    win_rate = win_rate_of (t ∷ ts);
    avg_r = average (r_values (t ∷ ts));
    trades_per_day =
        div (lit (length (t ∷ ts)) 0) (span_days (last_closed_at t.closed_at ts) t.closed_at);
  }

  pub live_metrics : String → String → ℕ → Journal F → LiveMetrics F
  live_metrics strategy symbol window j = metrics_of (scored_rows strategy symbol window j)

  abbrev delta_of : MetricName → F → F → MetricDelta F
  delta_of name baseline_v live_v =
      let delta = sub live_v baseline_v in
      record {
        name = name;
        baseline = baseline_v;
        live = live_v;
        delta = delta;
        delta_pct = if not (eq baseline_v nought) then div delta (abs baseline_v) else nought;
      }

  abbrev note_bits : MetricDelta F → MetricDelta F → List (DriftBit F)
  note_bits wr r =
      (if le (lit 5 2) (abs wr.delta)
        then DriftBit.win_rate_off (mul wr.delta (lit 100 0)) ∷ []
        else [])
      ++ (if le (lit 5 2) (abs r.delta) then DriftBit.avg_r_off r.delta ∷ [] else [])

  abbrev bits_note : List (DriftBit F) → DriftNote F
  bits_note [] = DriftNote.rate_drifting
  bits_note (bit ∷ bits) = DriftNote.off (bit ∷ bits)

  abbrev note_of : DriftStatus → MetricDelta F → MetricDelta F → DriftNote F
  note_of DriftStatus.ok wr r = DriftNote.tracking
  note_of DriftStatus.warn wr r = bits_note (note_bits wr r)
  note_of DriftStatus.danger wr r = bits_note (note_bits wr r)
  note_of DriftStatus.unknown wr r = bits_note (note_bits wr r)

  abbrev status_of : DriftConfig F → F → DriftStatus
  status_of cfg worst =
      if le cfg.danger_delta worst
      then DriftStatus.danger
      else if le cfg.warn_delta worst
      then DriftStatus.warn
      else DriftStatus.ok

  -- `_compare`, from the live metrics.
  abbrev compare_with : DriftConfig F → Baseline F → LiveMetrics F → DriftReport F
  compare_with cfg b live =
      let wr = delta_of MetricName.win_rate b.win_rate live.win_rate in
      let r = delta_of MetricName.avg_r b.avg_r live.avg_r in
      let rate = delta_of MetricName.trades_per_day b.avg_trades_per_day live.trades_per_day in
      let status = status_of cfg (max_of (abs wr.delta) (abs r.delta)) in
      if ltb live.count cfg.min_live_trades
      then record {
        strategy = b.strategy;
        symbol = b.symbol;
        status = DriftStatus.unknown;
        live_trade_count = live.count;
        baseline = some b;
        metrics = [];
        note = DriftNote.too_few live.count cfg.min_live_trades;
      }
      else record {
        strategy = b.strategy;
        symbol = b.symbol;
        status = status;
        live_trade_count = live.count;
        baseline = some b;
        metrics = wr ∷ r ∷ rate ∷ [];
        note = note_of status wr r;
      }

  pub compare_baseline : DriftConfig F → Journal F → Baseline F → DriftReport F
  unfolding live_metrics
  compare_baseline cfg j b =
      compare_with cfg b (live_metrics b.strategy b.symbol cfg.live_trades_window j)

  -- The store's rows, in the order of their insertion.
  pub report :
      DriftConfig F → Journal F → Table (String × String) (Baseline F) → List (DriftReport F)
  unfolding compare_baseline
  report cfg j store =
      map (λ (row : (String × String) × Baseline F). compare_baseline cfg j row.1) store

pub upsert_baseline :
    {F : Type 0}
    → Baseline F
    → Table (String × String) (Baseline F)
    → Table (String × String) (Baseline F)
upsert_baseline b store = upsert (b.strategy, b.symbol) b store

pub delete_baseline :
    {F : Type 0}
    → String
    → String
    → Table (String × String) (Baseline F)
    → Table (String × String) (Baseline F)
delete_baseline strategy symbol store = delete (strategy, symbol) store
