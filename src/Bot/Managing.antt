-- ===== src/Bot/Managing.antt =====
-- The part of `tick` of src/bot.py before the symbols are scanned: the open orders, the observed balance,
-- the refreshes and the reconciliation. The throttle reads the table that the refresh of the correlations
-- writes, as main.py builds them.
use forex_ea.Prelude.{ℕ, Option, none, some, List, [], ◌∷◌, String, foldl, map, ◌++◌, if◌then◌else◌}
use forex_ea.Table.{string_eq, pair_eq}
use forex_ea.Result.{Result, ok, err}
use forex_ea.Float.{Float}
use forex_ea.Execution.{Order, Bar}
use forex_ea.Execution.Stops.{StopPolicy, update_peak, proposed_stop}
use forex_ea.Allocator.Refresh.{maybe_refresh_allocator}
use forex_ea.Correlation.{upsert_pair}
use forex_ea.Risk.Manager.{RiskManager}
use forex_ea.PropFirm.{observe}
use forex_ea.Journal.{record_modify}
use forex_ea.Bot.{Bot, is_due}
use forex_ea.Bot.Closing.{watch_order, ticket_of}
use forex_ea.Bot.Reconcile.{reconcile_journal}
use forex_ea.Bot.Rounds.{Strategy, Setup, Round, Loop}

module _ {F : Type 0} ⦃f : Float F⦄ {B E : Type 0} (cfg : Setup F B E) where
  open f use {eq}

  -- The rest of `_apply_trailing`, with the order that the executor's `modify` left.
  abbrev journal_stop : ℕ → F → Order F × E → Bot F E → Order F × Bot F E
  journal_stop now prev (o, e) b =
      let b' = record b { executor = e } in
      if eq o.stop_loss prev then (o, b') else (
        o,
        record b' {
          journal = record_modify o.id (some o.stop_loss) (some o.take_profit) now b'.journal;
        },
      )

  abbrev move_stop : ℕ → Order F → Option F → Bot F E → Order F × Bot F E
  move_stop now o none b = (o, b)
  move_stop now o (some new_sl) b =
      journal_stop now o.stop_loss (cfg.executor.modify o (some new_sl) none b.executor) b

  abbrev trail_order :
      ℕ
      → Option (StopPolicy F)
      → Result (Option (Bar F))
      → Order F
      → Bot F E
      → Result (Order F) × Bot F E
  trail_order now none bar o b = (ok o, b)
  trail_order now (some pol) (err raised) o b = (err raised, b)
  trail_order now (some pol) (ok none) o b = (ok o, b)
  trail_order now (some pol) (ok (some last)) o b =
      let o' = update_peak o last.high last.low in
      let (moved, b') =
        move_stop now o' (proposed_stop pol o')
          (record b { executor = cfg.executor.shared o' b.executor }) in
      (ok moved, b')

  -- `_close_trigger` and what follows; the results are those of the tick, whose count is 0 so far.
  abbrev watch_at : Round F B → Order F → Result (Option (Bar F)) → Bot F E → Result ℕ × Bot F E
  watch_at r o (err raised) b = (err raised, b)
  watch_at r o (ok bar) b =
      (ok 0, watch_order cfg.executor r.monotonic (r.close_clock (ticket_of o)) bar o b)

  abbrev after_trail : Round F B → Result (Order F) × Bot F E → Result ℕ × Bot F E
  after_trail r (err raised, b) = (err raised, b)
  after_trail r (ok o, b) = watch_at r o (r.close_bar o.symbol) b

  -- The body of the loop over the open orders, which an exception ends.
  abbrev manage_order : Round F B → Result ℕ × Bot F E → Order F → Result ℕ × Bot F E
  manage_order r (err raised, b) o = (err raised, b)
  manage_order r (ok n, b) o =
      after_trail r (trail_order r.now cfg.stop_manager (r.trail_bar o.symbol) o b)

  unfoldable pub manage_orders : Round F B → Bot F E → Result ℕ × Bot F E
  manage_orders r b = foldl (manage_order r) (ok 0, b) (cfg.executor.open_orders b.executor)

  abbrev observe_at : ℕ → Result F → RiskManager F → RiskManager F
  observe_at now (err raised) m = m
  observe_at now (ok balance) m = elim m.propfirm_guard [
    | none ↦ m
    | some (pol, store) ↦ record m {
      propfirm_guard = some (pol, (observe pol now balance store).1);
    }
  ]

  unfoldable pub observe_balance : Round F B → Bot F E → Bot F E
  observe_balance r b = record b {
    risk = observe_at r.now (cfg.executor.account_balance b.executor) b.risk;
  }

  abbrev with_matrix : List ((String × String) × F) → RiskManager F → RiskManager F
  with_matrix rows m = elim m.portfolio_throttle [
    | none ↦ m
    | some (pol, pairs) ↦ record m {
      portfolio_throttle =
          some (
            pol,
            foldl (λ t (p : (String × String) × F). upsert_pair p.0.0 p.0.1 p.1 t) pairs rows,
          );
    }
  ]

  unfoldable pub maybe_refresh_correlations : Round F B → Loop F E → Loop F E
  maybe_refresh_correlations r s = elim cfg.correlation_refresh_ticks [
    | none ↦ s
    | some n ↦
        if is_due s.last_correlation_refresh s.tick_count n
        then record s {
          last_correlation_refresh = some s.tick_count;
          bot = record (s.bot) { risk = with_matrix r.matrix s.bot.risk };
        }
        else s
  ]

  abbrev pairs_of : List (String × List (Strategy F B)) → List (String × String)
  pairs_of [] = []
  pairs_of ((symbol, strategies) ∷ rest) =
      map (λ (g : Strategy F B). (g.name, symbol)) strategies ++ pairs_of rest

  unfoldable pub refresh_allocations : Round F B → Loop F E → Loop F E
  refresh_allocations r s = elim cfg.allocator [
    | none ↦ s
    | some pol ↦
        let (b, last, store) =
          maybe_refresh_allocator pol r.now cfg.allocator_refresh_ticks cfg.allocator_score_window
            (pairs_of cfg.strategies) s.tick_count s.last_allocator_refresh s.allocation_store
            s.bot in
        record s { bot = b; last_allocator_refresh = last; allocation_store = store }
  ]

  unfoldable pub maybe_reconcile : Round F B → Loop F E → Loop F E
  maybe_reconcile r s =
      if is_due s.last_reconcile s.tick_count cfg.journal_reconcile_ticks
      then record s {
        last_reconcile = some s.tick_count;
        bot = reconcile_journal cfg.executor cfg.pips r.positions s.bot;
      }
      else s
