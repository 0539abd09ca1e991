-- ===== src/Bot/Exposure/Opened.antt =====
-- The count of open trades after a signal is handled: `_handle_signal` of src/bot.py.
use forex_ea.Prelude.{
  ℕ, ◌<◌, ◌≡◌, refl, sym, subst, ◌∙◌, Bool, true, false, Option, none, some, String, arith,
  if◌then◌else◌, Bool-cases, Option-cases, inl, inr, ◌⊎◌,
}
use forex_ea.Result.{Result, ok, err}
use forex_ea.Float.{Float}
use forex_ea.Execution.{Order, OrderStatus, Signal, SignalType}
use forex_ea.Risk.Sizing.{Pips}
use forex_ea.Table.{◌==◌, string_eq}
use forex_ea.Controls.Toggles.{mode_signal}
use forex_ea.Risk.Manager.{register_trade_opened, RiskManager, RiskDecision, evaluate}
use forex_ea.Risk.Manager.Exposure.{evaluate-room, evaluate-open_trade_count}
use forex_ea.Journal.{Journal, record_open}
use forex_ea.Controls.SignalDedup.{DedupTable}
use forex_ea.Bot.{Bot, Executor, Clock, Gate, IsBroker}
use forex_ea.Bot.Alerts.{send_signal_alert, send_setup_alert}
use forex_ea.Bot.Opening.{
  handle_signal, on_levels, if_first, by_mode, unless_opposite, assess, act_on, place_at, placed,
  book, lot_sizer, request_of, note_opened, is_rejected, strategy_mode, first_on_bar,
  compute_actual_risk_pct,
}
use forex_ea.Bot.Exposure.{IsBooked, IsBookedBot, record_open-IsBooked}

module _ {F : Type 0} ⦃f : Float F⦄ where
  note_opened-limits : (now : ℕ) (m : RiskManager F) → (note_opened now m).limits ≡ m.limits
  note_opened-limits now m = elim (Option-cases m.propfirm_guard) [
    | inl off ↦ rw off refl
    | inr (guard, on) ↦ rw on refl
  ]

module _ {F : Type 0} ⦃f : Float F⦄ {E : Type 0} where
  pub IsBooked-if :
      (c : Bool) (x y : Bot F E) → IsBookedBot x → IsBookedBot y → IsBookedBot (if c then x else y)
  IsBooked-if true x y h k = h
  IsBooked-if false x y h k = k

  send_setup_alert-IsBooked :
      (strategy symbol : String) (side : SignalType) (gate : Gate F) (now : ℕ) (b : Bot F E)
      → IsBookedBot b
      → IsBookedBot (send_setup_alert strategy symbol side gate now b)
  unfolding send_setup_alert
  send_setup_alert-IsBooked strategy symbol side gate now b h =
      IsBooked-if b.notifies _ b (IsBooked-if _ _ _ h h) h

  send_signal_alert-IsBooked :
      (sig : Signal F) (strategy : String) (now : ℕ) (b : Bot F E)
      → IsBookedBot b
      → IsBookedBot (send_signal_alert sig strategy now b)
  unfolding send_signal_alert
  send_signal_alert-IsBooked sig strategy now b h =
      IsBooked-if b.notifies _ b (IsBooked-if _ _ _ h h) h

  module _ (ex : Executor F E) (broker : IsBroker ex) (pips : Pips F) (clk : Clock F) where
    abbrev HasRoom : Bot F E → Type 0
    HasRoom b = b.risk_state.open_trade_count < b.risk.limits.max_open_trades

    book-IsBooked :
        (name : String) (o : Order F) (balance : F) (r : Result (Journal F)) (b : Bot F E)
        → record_open o b.journal ≡ r
        → o.status ≡ OrderStatus.open_status
        → o.broker_ticket ≡ some o.id
        → HasRoom b
        → IsBookedBot b
        → IsBookedBot (book ex pips clk name o balance r b).1
    book-IsBooked name o balance (err raised) b e opened ticket room h = h
    book-IsBooked name o balance (ok j) b e opened ticket room h =
        let booked = compute_actual_risk_pct pips o balance in
        let more =
          subst (λ lim. IsBooked lim j (register_trade_opened booked b.risk_state))
            (sym (note_opened-limits clk.noted_at b.risk))
            (record_open-IsBooked b.risk.limits b.journal b.risk_state o j booked opened ticket room
              e h) in
        IsBooked-if b.notifies _ _ more more

    -- What `place_status` says of an order.
    abbrev IsAnswer : Order F → Type 0
    IsAnswer o =
        (o.status ≡ OrderStatus.rejected)
        ⊎ ((o.status ≡ OrderStatus.open_status) × (o.broker_ticket ≡ some o.id))

    placed-IsBooked :
        (name : String) (o : Order F) (balance : F) (b : Bot F E)
        → IsAnswer o
        → HasRoom b
        → IsBookedBot b
        → IsBookedBot (placed ex pips clk name o balance b).1
    placed-IsBooked name o balance b (inl refused) room h = rw refused h
    placed-IsBooked name o balance b (inr (opened, ticket)) room h =
        subst
          (λ st.
            IsBookedBot
              (if is_rejected st
                then (ok false, b)
                else book ex pips clk name o balance (record_open o b.journal) b).1)
          (sym opened)
          (book-IsBooked name o balance (record_open o b.journal) b refl opened ticket room h)

    place_at-IsBooked :
        (name : String) (requested : F) (order : Order F) (balance : Result F) (b : Bot F E)
        → HasRoom b
        → IsBookedBot b
        → IsBookedBot (place_at ex pips clk name requested order balance b).1
    place_at-IsBooked name requested order (err raised) b room h = h
    place_at-IsBooked name requested order (ok balance) b room h =
        placed-IsBooked name (ex.place order b.executor).0 balance _
          (broker.place_status order b.executor) room h

    act_on-IsBooked :
        (name : String) (regime : Option String) (sig : Signal F) (sl tp weight : F)
        (r : Result (RiskDecision F)) (b : Bot F E)
        → ((d : RiskDecision F) → r ≡ ok d → d.approved ≡ true → HasRoom b)
        → IsBookedBot b
        → IsBookedBot (act_on ex pips clk name regime sig sl tp weight r b).1
    act_on-IsBooked name regime sig sl tp weight (err raised) b room h = h
    act_on-IsBooked name regime sig sl tp weight (ok d) b room h = elim (Bool-cases d.approved) [
      | inl passed ↦ rw passed (
          place_at-IsBooked name sig.price _ (ex.account_balance b.executor) b (room d refl passed)
            h)
      | inr refused ↦
          rw refused (send_setup_alert-IsBooked name sig.symbol sig.type _ clk.alerted_at b h)
    ]

    assess-IsBooked :
        (name : String) (regime : Option String) (sig : Signal F) (sl tp weight : F)
        (stop_distance balance : Result F) (b : Bot F E)
        → IsBookedBot b
        → IsBookedBot (assess ex pips clk name regime sig sl tp weight stop_distance balance b).1
    assess-IsBooked name regime sig sl tp weight (err raised) balance b h = h
    assess-IsBooked name regime sig sl tp weight (ok distance) (err raised) b h = h
    assess-IsBooked name regime sig sl tp weight (ok distance) (ok balance) b h =
        let req = request_of ex pips clk sig weight balance distance b in
        let same = evaluate-open_trade_count b.risk (lot_sizer pips) req b.risk_state in
        act_on-IsBooked name regime sig sl tp weight
          (evaluate b.risk (lot_sizer pips) req b.risk_state).0 _
          (λ d e passed. evaluate-room b.risk (lot_sizer pips) req b.risk_state d e passed)
          (record {
            sound = h.sound;
            counted = same ∙ h.counted;
            bounded = omega (arith, same, h.bounded);
          })

    unless_opposite-IsBooked :
        (name : String) (regime : Option String) (sig : Signal F) (sl tp : F)
        (o : Option SignalType) (b : Bot F E)
        → IsBookedBot b
        → IsBookedBot (unless_opposite ex pips clk name regime sig sl tp o b).1
    unless_opposite-IsBooked name regime sig sl tp (some side) b h =
        send_setup_alert-IsBooked name sig.symbol sig.type _ clk.alerted_at b h
    unless_opposite-IsBooked name regime sig sl tp none b h =
        assess-IsBooked name regime sig sl tp _ _ _ b h

    by_mode-IsBooked :
        (name : String) (regime : Option String) (sig : Signal F) (sl tp : F) (b : Bot F E)
        → IsBookedBot b
        → IsBookedBot (by_mode ex pips clk name regime sig sl tp b).1
    by_mode-IsBooked name regime sig sl tp b h =
        elim (Bool-cases (strategy_mode name b.toggle_store == mode_signal)) [
          | inl signals ↦ rw signals (send_signal_alert-IsBooked sig name clk.alerted_at b h)
          | inr executes ↦ rw executes (unless_opposite-IsBooked name regime sig sl tp _ b h)
        ]

    if_first-IsBooked :
        (name : String) (regime : Option String) (sig : Signal F) (sl tp : F)
        (p : Bool × Option DedupTable) (b : Bot F E)
        → IsBookedBot b
        → IsBookedBot (if_first ex pips clk name regime sig sl tp p b).1
    if_first-IsBooked name regime sig sl tp (true, table) b h =
        by_mode-IsBooked name regime sig sl tp (record b { signal_dedup_store = table }) h
    if_first-IsBooked name regime sig sl tp (false, table) b h = h

    on_levels-IsBooked :
        (name : String) (regime : Option String) (sig : Signal F) (sl tp : Option F) (b : Bot F E)
        → IsBookedBot b
        → IsBookedBot (on_levels ex pips clk name regime sig sl tp b).1
    on_levels-IsBooked name regime sig none tp b h = h
    on_levels-IsBooked name regime sig (some sl) none b h = h
    on_levels-IsBooked name regime sig (some sl) (some tp) b h =
        if_first-IsBooked name regime sig sl tp
          (first_on_bar clk.dedup name sig b.signal_dedup_store) b h

    pub handle_signal-IsBooked :
        (name : String) (regime : Option String) (sig : Signal F) (b : Bot F E)
        → IsBookedBot b
        → IsBookedBot (handle_signal ex pips clk name regime sig b).1
    unfolding handle_signal
    handle_signal-IsBooked name regime sig b h =
        on_levels-IsBooked name regime sig sig.stop_loss sig.take_profit b h
