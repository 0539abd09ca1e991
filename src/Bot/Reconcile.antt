-- ===== src/Bot/Reconcile.antt =====
-- The risk state from the journal: `_seed_risk_state_from_journal` and `_maybe_reconcile_journal` of
-- src/bot.py. An exception that the code catches and logs is taken as the answer that it then uses.
use forex_ea.Prelude.{
  ℕ, zero, suc, Bool, false, Option, none, some, List, [], ◌∷◌, foldl, nat_beq, ◌||◌, ◌&&◌,
  if◌then◌else◌,
}
use forex_ea.Table.{Table}
use forex_ea.Result.{Result, ok, err}
use forex_ea.Float.{Float}
use forex_ea.Risk.Sizing.{Pips}
use forex_ea.Risk.Manager.{RiskState, register_trade_opened, register_trade_closed}
use forex_ea.Journal.{Trade, CloseInfo, list_open, mark_closed_by_ticket}
use forex_ea.Bot.{Bot, Executor}

abbrev pub among : ℕ → List ℕ → Bool
among n [] = false
among n (m ∷ ms) = nat_beq m n || among n ms

-- `list_open_position_tickets()` and `fetch_close_info`, `none` where the latter raises too.
pub record Positions (F : Type 0) : Type 0 where
  pub live_tickets : List ℕ
  pub fetch_close : ℕ → Option (CloseInfo F)

module _ {F : Type 0} ⦃f : Float F⦄ where
  open f use {nought, sub, mul, div, abs, lt, le, lit}

  abbrev pub balance_or_nought : Result F → F
  balance_or_nought (ok balance) = balance
  balance_or_nought (err raised) = nought

  -- The risk of a row, by the balance at hand.
  pub row_risk_pct : Pips F → F → Trade F → F
  row_risk_pct pips balance t =
      let ps = pips.size_of t.symbol in
      let per_lot_risk =
        mul (div (abs (sub t.entry_price t.stop_loss)) ps) (pips.value_of t.symbol (lit 1 0)) in
      if le ps nought || le balance nought
      then nought
      else div (mul per_lot_risk t.lot_size) balance

  -- The risk to credit back for a row, by the balance at hand.
  pub refund_pct : Pips F → F → Trade F → F
  refund_pct pips balance t =
      let ps = pips.size_of t.symbol in
      let per_lot =
        mul (div (abs (sub t.entry_price t.stop_loss)) ps) (pips.value_of t.symbol (lit 1 0)) in
      if lt nought ps && lt nought balance then div (mul per_lot t.lot_size) balance else nought

  -- `RiskState()`
  abbrev pub fresh_state : RiskState F
  fresh_state = record {
    open_trade_count = 0;
    open_risk_pct = nought;
    daily_pnl = nought;
    last_reset = none;
  }

  abbrev pub seed_row : Pips F → F → RiskState F → ℕ × Trade F → RiskState F
  seed_row pips balance s r = register_trade_opened (row_risk_pct pips balance r.1) s

  module _ {E : Type 0} (ex : Executor F E) (pips : Pips F) where
    unfoldable pub seed_risk_state : Bot F E → Bot F E
    seed_risk_state b =
        let balance = balance_or_nought (ex.account_balance b.executor) in
        record b { risk_state = foldl (seed_row pips balance) b.risk_state (list_open b.journal) }

    -- A new process keeps what is on disk and at the broker, and seeds its risk state.
    unfoldable pub restart : E → Bot F E → Bot F E
    unfolding seed_risk_state
    restart e b = seed_risk_state (record b {
      executor = e;
      risk_state = fresh_state;
      allocations = [];
      close_retry_after = [];
      last_setup_alert = [];
      last_signal_alert = [];
    })

    abbrev pub refund : Bot F E → Trade F → CloseInfo F → RiskState F → RiskState F
    refund b t info s =
        register_trade_closed
          (refund_pct pips (balance_or_nought (ex.account_balance b.executor)) t) info.pnl s

    -- A position that the broker has closed, if its closing deal has landed.
    abbrev pub settle_phantom : ℕ → Trade F → Option (CloseInfo F) → Bot F E → Bot F E
    settle_phantom ticket t none b = b
    settle_phantom ticket t (some info) b = record b {
      journal = mark_closed_by_ticket ticket info "reconciled_from_mt5" b.journal;
      risk_state = refund b t info b.risk_state;
    }

    -- The loop's body; a ticket that is missing or 0 is passed over.
    abbrev pub reconcile_ticket : Positions F → Trade F → Option ℕ → Bot F E → Bot F E
    reconcile_ticket pos t none b = b
    reconcile_ticket pos t (some zero) b = b
    reconcile_ticket pos t (some (suc n)) b =
        if among (suc n) pos.live_tickets
        then b
        else settle_phantom (suc n) t (pos.fetch_close (suc n)) b

    abbrev pub reconcile_rows : Positions F → Table ℕ (Trade F) → Bot F E → Bot F E
    reconcile_rows pos [] b = b
    reconcile_rows pos ((id, t) ∷ rows) b =
        reconcile_rows pos rows (reconcile_ticket pos t t.broker_ticket b)

    -- `none` where the executor lists no positions.
    unfoldable pub reconcile_journal : Option (Positions F) → Bot F E → Bot F E
    reconcile_journal none b = b
    reconcile_journal (some pos) b = reconcile_rows pos (list_open b.journal) b
