-- ===== src/Bot/Exposure/Steps.antt =====
-- Whatever the bot does in its life, restarts included, its count of open trades is that of the
-- journal: src/bot.py with src/execution/journal.py and src/risk/risk_manager.py.
use forex_ea.Prelude.{
  ℕ, suc, ◌≤◌, ◌≡◌, refl, sym, subst, ap, ◌∙◌, Bool, true, false, Option, none, some, [], ◌∷◌,
  String, length, nat_beq, arith, if◌then◌else◌, Bool-cases, inl, inr,
}
use forex_ea.Table.{Table, lookup, nat_eq}
use forex_ea.Float.{Float}
use forex_ea.Execution.{Order, Bar, Signal}
use forex_ea.Execution.Exits.{Trigger, close_trigger}
use forex_ea.Risk.Sizing.{Pips}
use forex_ea.Risk.Manager.{RiskManager}
use forex_ea.Journal.{
  Trade, is_closed, is_listed, listed, list_open, update_where, modify_row, record_modify,
}
use forex_ea.Journal.Keys.{update-IsSound}
use forex_ea.Bot.{Bot, Executor, Clock, IsBroker}
use forex_ea.Bot.Closing.{
  by_trigger, log_close, text_of, close_order, watch_order, after_close, waits, ticket_of,
  booked_risk,
}
use forex_ea.Bot.Opening.{handle_signal}
use forex_ea.Bot.Reconcile.{Positions, reconcile_journal, restart}
use forex_ea.Bot.Exposure.{IsBooked, IsBookedBot, IsOpenRow, record_close-IsBooked}
use forex_ea.Bot.Exposure.Opened.{IsBooked-if, handle_signal-IsBooked}
use forex_ea.Bot.Exposure.Reconciled.{reconcile_journal-IsBooked, restart-IsBooked}

-- One thing that happens to the bot; at any time the broker's side may change by itself, and so may
-- what the gates of the risk manager read, but for the limits.
pub data BotStep {F E : Type 0} ⦃f : Float F⦄ (ex : Executor F E) (pips : Pips F) (b : Bot F E)
    : Bot F E → Type 0 where
  handling :
      (clk : Clock F) (name : String) (regime : Option String) (sig : Signal F)
      → BotStep ex pips b (handle_signal ex pips clk name regime sig b).1
  watching :
      (now : ℕ) (clk : Clock F) (bar : Option (Bar F)) (o : Order F) (row : Trade F)
      → IsOpenRow b.journal (o.id, row)
      → BotStep ex pips b (watch_order ex now clk bar o b)
  trailing :
      (trade_id : ℕ) (stop_loss take_profit : Option F) (now : ℕ)
      → BotStep ex pips b
          (record b { journal = record_modify trade_id stop_loss take_profit now b.journal })
  reconciling : (pos : Option (Positions F)) → BotStep ex pips b (reconcile_journal ex pips pos b)
  restarting : (e : E) → BotStep ex pips b (restart ex pips e b)
  outside :
      (e : E) (m : RiskManager F)
      → m.limits ≡ b.risk.limits
      → BotStep ex pips b (record b { executor = e; risk = m })

pub data BotRun {F E : Type 0} ⦃f : Float F⦄ (ex : Executor F E) (pips : Pips F) (b : Bot F E)
    : Bot F E → Type 0 where
  begin : BotRun ex pips b b
  after : {c d : Bot F E} → BotRun ex pips b c → BotStep ex pips c d → BotRun ex pips b d

module _ {F : Type 0} ⦃f : Float F⦄ where
  length-select_if :
      (r q : ℕ × Trade F) (shown : Bool) (rows others : Table ℕ (Trade F))
      → length rows ≡ length others
      → length (if shown then r ∷ rows else rows) ≡ length (if shown then q ∷ others else others)
  length-select_if r q true rows others h = ap suc h
  length-select_if r q false rows others h = h

  length-listed_modify :
      (p : ℕ → Trade F → Bool) (stop_loss take_profit : Option F) (t : Table ℕ (Trade F))
      → length (listed (update_where p (modify_row stop_loss take_profit) t)) ≡ length (listed t)
  length-listed_modify p stop_loss take_profit [] = refl
  length-listed_modify p stop_loss take_profit ((id, row) ∷ t) =
      let rest = length-listed_modify p stop_loss take_profit t in
      elim (Bool-cases (p id row)) [
        | inl hit ↦ rw hit (length-select_if _ _ (is_listed id row) _ _ rest)
        | inr miss ↦ rw miss (length-select_if _ _ (is_listed id row) _ _ rest)
      ]

  record_modify-IsBooked :
      {E : Type 0} (trade_id : ℕ) (stop_loss take_profit : Option F) (now : ℕ) (b : Bot F E)
      → IsBookedBot b
      → IsBookedBot
          (record b { journal = record_modify trade_id stop_loss take_profit now b.journal })
  unfolding record_modify list_open
  record_modify-IsBooked trade_id stop_loss take_profit now b h = record {
    sound =
        update-IsSound (λ id t. nat_beq id trade_id) (modify_row stop_loss take_profit)
          b.journal.trades (λ id t own. record { ticket = own.ticket; unclosed = own.unclosed })
          h.sound;
    counted =
        h.counted
        ∙ sym (
            length-listed_modify (λ id t. nat_beq id trade_id) stop_loss take_profit
              b.journal.trades);
    bounded = h.bounded;
  }

module _ {F : Type 0} ⦃f : Float F⦄ {E : Type 0} {ex : Executor F E} (broker : IsBroker ex) where
  after_close-IsBooked :
      (clk : Clock F) (o c : Order F) (row : Trade F) (b : Bot F E)
      → c.id ≡ o.id
      → IsOpenRow b.journal (o.id, row)
      → IsBookedBot b
      → IsBookedBot (after_close clk o c b)
  after_close-IsBooked clk o c row b same shown h = elim (Bool-cases (is_closed c.status)) [
    | inl done ↦
        let less =
          record_close-IsBooked b.risk.limits b.journal b.risk_state c row (booked_risk b.risk o)
            c.pnl done (subst (λ id. IsOpenRow b.journal (id, row)) (sym same) shown) h in
        rw done (IsBooked-if b.notifies _ _ less less)
    | inr refused ↦ rw refused h
  ]

  close_order-IsBooked :
      (clk : Clock F) (o : Order F) (reason : Trigger) (row : Trade F) (b : Bot F E)
      → IsOpenRow b.journal (o.id, row)
      → IsBookedBot b
      → IsBookedBot (close_order ex clk o reason b)
  unfolding close_order
  close_order-IsBooked clk o reason row b shown h =
      let (c, e) = ex.close o (text_of reason) b.executor in
      after_close-IsBooked clk o c row (log_close clk o reason c (record b { executor = e }))
        (broker.close_id o (text_of reason) b.executor) shown h

  by_trigger-IsBooked :
      (now : ℕ) (clk : Clock F) (o : Order F) (trigger : Option Trigger) (row : Trade F)
      (b : Bot F E)
      → IsOpenRow b.journal (o.id, row)
      → IsBookedBot b
      → IsBookedBot (by_trigger ex now clk o trigger b)
  by_trigger-IsBooked now clk o none row b shown h = h
  by_trigger-IsBooked now clk o (some trigger) row b shown h =
      IsBooked-if (waits now (lookup (ticket_of o) b.close_retry_after)) b _ h
        (close_order-IsBooked clk o trigger row b shown h)

  BotStep-IsBooked :
      {pips : Pips F} {b c : Bot F E} → BotStep ex pips b c → IsBookedBot b → IsBookedBot c
  unfolding watch_order
  BotStep-IsBooked {pips = pips} {b = b} (handling clk name regime sig) h =
      handle_signal-IsBooked ex broker pips clk name regime sig b h
  BotStep-IsBooked {b = b} (watching now clk bar o row shown) h =
      by_trigger-IsBooked now clk o (close_trigger o bar) row b shown h
  BotStep-IsBooked {b = b} (trailing trade_id stop_loss take_profit now) h =
      record_modify-IsBooked trade_id stop_loss take_profit now b h
  BotStep-IsBooked {pips = pips} {b = b} (reconciling pos) h =
      reconcile_journal-IsBooked ex pips pos b h
  BotStep-IsBooked {pips = pips} {b = b} (restarting e) h = restart-IsBooked ex pips e b h
  BotStep-IsBooked {b = b} (outside e m same) h =
      subst (λ lim. IsBooked lim b.journal b.risk_state) (sym same) h

  BotRun-IsBooked :
      {pips : Pips F} {b c : Bot F E} → BotRun ex pips b c → IsBookedBot b → IsBookedBot c
  BotRun-IsBooked begin h = h
  BotRun-IsBooked (after run step) h = BotStep-IsBooked step (BotRun-IsBooked run h)

  -- With an executor that gives an open order its ticket as key and keeps the key of an order that it
  -- closes: through signals handled, open trades watched and closed, stops trailed, reconciliations and
  -- restarts, the manager's count is the number of the journal's open trades, and no more trades are
  -- ever open than the limit allows, if both held at the beginning.
  pub journal_open_bounded :
      {pips : Pips F} {b c : Bot F E}
      → BotRun ex pips b c
      → IsBookedBot b
      → (c.risk_state.open_trade_count ≡ length (list_open c.journal))
        × (length (list_open c.journal) ≤ c.risk.limits.max_open_trades)
  journal_open_bounded run h =
      let end = BotRun-IsBooked run h in (end.counted, omega (arith, end.counted, end.bounded))
