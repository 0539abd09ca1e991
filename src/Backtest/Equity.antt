-- ===== src/Backtest/Equity.antt =====
-- The accounts of a simulation: `run_backtest` of src/backtesting/engine.py.
use forex_ea.Prelude.{
  ℕ, ◌≡◌, ◌≢◌, refl, sym, ap, ◌∙◌, subst, Option, none, some, List, [], ◌∷◌, ◌++◌, String, arith,
  foldl, drop, take, All, All-append, Bool-cases, inl, inr, ◌||◌,
}
use forex_ea.Float.{Float}
use forex_ea.Execution.{Bar, is_buy, is_sell}
use forex_ea.Result.{ok, returned, ok_injective, ◌>>=◌}
use forex_ea.Risk.Sizing.{Pips, divide}
use forex_ea.Backtest.{
  Trade, TradeReason, Book, BacktestResult, Row, Strategy, pnl, close, check_stop_or_target,
  open_from_signal, booked, filled, exits, enter, entries, on_bar, loop, last?, at_end,
  run_backtest, opening_book,
}

module _ {F : Type 0} ⦃f : Float F⦄ where
  open f use {add, sub}

  abbrev pub sum_from : F → List (Trade F) → F
  sum_from start ts = foldl (λ s (t : Trade F). add s t.pnl) start ts

  -- What a trade was closed with.
  abbrev pub IsClosed : Pips F → Trade F → Type 0
  IsClosed pips t =
      (exit : F) × (t.exit_price ≡ some exit)
      × (pnl pips t exit ≡ ok t.pnl)
      × (t.reason ≢ TradeReason.unset)

  -- The equity is the starting equity and the profits of the closed trades.
  abbrev IsBalanced : Pips F → F → Book F → Type 0
  IsBalanced pips start b = (b.equity ≡ sum_from start b.trades) × All (IsClosed pips) b.trades

  sum_from-append :
      (s : F) (ts : List (Trade F)) (t : Trade F)
      → sum_from s (ts ++ t ∷ []) ≡ add (sum_from s ts) t.pnl
  sum_from-append s [] t = refl
  sum_from-append s (u ∷ ts) t = sum_from-append (add s u.pnl) ts t

  booked-IsBalanced :
      (pips : Pips F) (start : F) (t : Trade F) (b : Book F)
      → IsClosed pips t
      → IsBalanced pips start b
      → IsBalanced pips start (booked t b)
  booked-IsBalanced pips start t b closed (sums, all) = (
    ap (λ e. add e t.pnl) sums ∙ sym (sum_from-append start b.trades t),
    All-append (IsClosed pips) b.trades (t ∷ []) all (closed, tt),
  )

  close-IsClosed :
      (pips : Pips F) (t : Trade F) (price : F) (ts : ℕ) (reason : TradeReason) (c : Trade F)
      → reason ≢ TradeReason.unset
      → close pips t price ts reason ≡ ok c
      → IsClosed pips c
  unfolding close pnl
  close-IsClosed pips t price ts reason c why h =
      let (gain, e, made) = returned (pnl pips t price) _ c h in
      let r : Trade F = record t {
        exit_time = some ts;
        exit_price = some price;
        pnl = gain;
        reason = reason;
      } in
      let exact : IsClosed pips r = (price, refl, e, why) in
      subst (IsClosed pips) (ok_injective made) exact

  -- A bar leaves the trade open, or closes it.
  ClosedIf : Pips F → Option (Trade F) → Type 0
  ClosedIf pips none = Unit
  ClosedIf pips (some c) = IsClosed pips c

  at_level :
      (pips : Pips F) (t : Trade F) (price : F) (ts : ℕ) (reason : TradeReason)
      (o : Option (Trade F))
      → reason ≢ TradeReason.unset
      → (close pips t price ts reason >>= λ c. ok (some c)) ≡ ok o
      → ClosedIf pips o
  unfolding ClosedIf
  at_level pips t price ts reason o why h =
      let (c, closed, made) = returned (close pips t price ts reason) (λ c. ok (some c)) o h in
      subst (ClosedIf pips) (ok_injective made) (close-IsClosed pips t price ts reason c why closed)

  check_stop_or_target-ClosedIf :
      (pips : Pips F) (t : Trade F) (bar : Bar F) (ts : ℕ) (o : Option (Trade F))
      → check_stop_or_target pips t bar ts ≡ ok o
      → ClosedIf pips o
  unfolding check_stop_or_target ClosedIf
  check_stop_or_target-ClosedIf pips t bar ts o h = ground (
    arith,
    at_level pips t t.stop_loss ts TradeReason.stop o (λ e. cc e),
    at_level pips t t.take_profit ts TradeReason.target o (λ e. cc e),
  )

  filled-IsBalanced :
      (pips : Pips F) (start : F) (b : Book F) (o : Option (Trade F))
      → ClosedIf pips o
      → IsBalanced pips start b
      → IsBalanced pips start (filled b o)
  unfolding ClosedIf
  filled-IsBalanced pips start b none closed h = h
  filled-IsBalanced pips start b (some t) closed h = booked-IsBalanced pips start t b closed h

  exits-IsBalanced :
      (pips : Pips F) (start : F) (bar : Bar F) (ts : ℕ) (o : Option (Trade F)) (b c : Book F)
      → exits pips bar ts o b ≡ ok c
      → IsBalanced pips start b
      → IsBalanced pips start c
  unfolding exits
  exits-IsBalanced pips start bar ts none b c e h = subst (IsBalanced pips start) (ok_injective e) h
  exits-IsBalanced pips start bar ts (some t) b c e h =
      let (o, closed, made) = returned (check_stop_or_target pips t bar ts) _ c e in
      subst (IsBalanced pips start) (ok_injective made)
        (filled-IsBalanced pips start b o (check_stop_or_target-ClosedIf pips t bar ts o closed) h)

  entries-IsBalanced :
      (pips : Pips F) (strategy : Strategy F) (risk start : F) (sym : String)
      (window : List (Row F)) (o : Option (Trade F)) (b c : Book F)
      → entries pips strategy risk sym window o b ≡ ok c
      → IsBalanced pips start b
      → IsBalanced pips start c
  unfolding entries
  entries-IsBalanced pips strategy risk start sym window (some t) b c e h =
      subst (IsBalanced pips start) (ok_injective e) h
  entries-IsBalanced pips strategy risk start sym window none b c e h =
      let (sig, said, went) = returned (strategy window) (enter pips risk sym b) c e in
      elim (Bool-cases (is_buy sig.type || is_sell sig.type)) [
        | inl trades ↦
            let (t, opened, made) =
              returned (open_from_signal pips sig b.equity risk sym) _ c (rw trades at went) in
            subst (IsBalanced pips start) (ok_injective made) h
        | inr waits ↦ subst (IsBalanced pips start) (ok_injective (rw waits at went)) h
      ]

  on_bar-IsBalanced :
      (pips : Pips F) (strategy : Strategy F) (risk start : F) (sym : String)
      (window : List (Row F)) (row : Row F) (b c : Book F)
      → on_bar pips strategy risk sym window row b ≡ ok c
      → IsBalanced pips start b
      → IsBalanced pips start c
  unfolding on_bar
  on_bar-IsBalanced pips strategy risk start sym window (ts, bar) b c e h =
      let (b₁, e₁, rest) = returned (exits pips bar ts b.open_trade b) _ c e in
      let (b₂, e₂, made) =
        returned (entries pips strategy risk sym window b₁.open_trade b₁) _ c rest in
      subst (IsBalanced pips start) (ok_injective made) (
        entries-IsBalanced pips strategy risk start sym window b₁.open_trade b₁ b₂ e₂
          (exits-IsBalanced pips start bar ts b.open_trade b b₁ e₁ h))

  loop-IsBalanced :
      (pips : Pips F) (strategy : Strategy F) (risk start : F) (sym : String)
      (before rows : List (Row F)) (b c : Book F)
      → loop pips strategy risk sym before rows b ≡ ok c
      → IsBalanced pips start b
      → IsBalanced pips start c
  unfolding loop
  loop-IsBalanced pips strategy risk start sym before [] b c e h =
      subst (IsBalanced pips start) (ok_injective e) h
  loop-IsBalanced pips strategy risk start sym before (row ∷ rows) b c e h =
      let window = before ++ row ∷ [] in
      let (b', e', rest) = returned (on_bar pips strategy risk sym window row b) _ c e in
      loop-IsBalanced pips strategy risk start sym window rows b' c rest
        (on_bar-IsBalanced pips strategy risk start sym window row b b' e' h)

  at_end-IsBalanced :
      (pips : Pips F) (start : F) (row : Option (Row F)) (o : Option (Trade F)) (b c : Book F)
      → at_end pips row o b ≡ ok c
      → IsBalanced pips start b
      → IsBalanced pips start c
  unfolding at_end
  at_end-IsBalanced pips start (some (ts, bar)) (some t) b c e h =
      let (u, closed, made) =
        returned (close pips t bar.close_price ts TradeReason.end_of_data) _ c e in
      subst (IsBalanced pips start) (ok_injective made) (
        booked-IsBalanced pips start u b
          (close-IsClosed pips t bar.close_price ts TradeReason.end_of_data u (λ x. cc x) closed) h)
  at_end-IsBalanced pips start (some row) none b c e h =
      subst (IsBalanced pips start) (ok_injective e) h
  at_end-IsBalanced pips start none o b c e h = subst (IsBalanced pips start) (ok_injective e) h

  -- A simulation that returns reports as final equity the starting equity and the profits of its
  -- trades, added in their order; each of them has been closed, for a reason and at a price that
  -- gives its profit.
  pub final_equity_sums :
      (pips : Pips F) (strategy : Strategy F) (start risk : F) (lookback : ℕ) (sym : String)
      (rows : List (Row F)) (r : BacktestResult F)
      → run_backtest pips strategy start risk lookback sym rows ≡ ok r
      → (r.final_equity ≡ sum_from start r.trades) × All (IsClosed pips) r.trades
  unfolding run_backtest
  final_equity_sums pips strategy start risk lookback sym rows r e =
      let (b, looped, rest) =
        returned
          (loop pips strategy risk sym (take lookback rows) (drop lookback rows)
            (opening_book start))
          _ r e in
      let (b', ended, rest') = returned (at_end pips (last? rows) b.open_trade b) _ r rest in
      let (gain, divided, made) = returned (divide (sub b'.equity start) start) _ r rest' in
      let balanced = at_end-IsBalanced pips start (last? rows) b.open_trade b b' ended (
        loop-IsBalanced pips strategy risk start sym _ _ (opening_book start) b looped
          (refl, tt)) in
      subst
        (λ (r : BacktestResult F).
          (r.final_equity ≡ sum_from start r.trades) × All (IsClosed pips) r.trades)
        (ok_injective made) balanced
