-- ===== src/Backtest/Returns.antt =====
-- When a simulation of src/backtesting/engine.py comes to its end without an exception.
use forex_ea.Prelude.{
  ℕ, ◌≡◌, refl, true, false, ◌||◌, Option, none, some, List, [], ◌∷◌, ◌++◌, String, arith,
  Bool-cases, inl, inr, take, drop,
}
use forex_ea.Float.{Float, IsOrdered, ◌≺◌}
use forex_ea.Execution.{Bar, Signal, is_buy, is_sell}
use forex_ea.Result.{ok, ReturnsWith, ReturnsWith->>=, ReturnsWith-if}
use forex_ea.Risk.Sizing.{Pips, divide, lot_size_from_risk, default_lots}
use forex_ea.Backtest.{
  Trade, TradeReason, Book, Row, Strategy, pnl, close, check_stop_or_target, stop_pips, signal_lots,
  open_from_signal, or_zero, filled, exits, enter, entries, on_bar, loop, last?, at_end,
  run_backtest, opening_book,
}

module _ {F : Type 0} ⦃f : Float F⦄ where
  open f use {nought, mul, lt, le, eq, lit}

  divide_returns : (a b : F) → eq b nought ≡ false → ReturnsWith (λ x. Unit {0}) (divide a b)
  divide_returns a b h = rw h (_, refl, tt)

  -- The risk can be sized at every stop distance of the symbol.
  abbrev pub IsSizable : Pips F → F → String → Type 0
  IsSizable pips risk symbol =
      (lt nought risk ≡ true)
      × (lt risk (lit 1 0) ≡ true)
      × (eq (lit 1 2) nought ≡ false)
      × ((d : F) → nought ≺ d → eq (mul d (pips.value_of symbol (lit 1 0))) nought ≡ false)

  module _ (laws : IsOrdered F) (pips : Pips F) (risk : F) (symbol : String) where
    lots_return :
        (balance d : F)
        → IsSizable pips risk symbol
        → nought ≺ d
        → ReturnsWith
            (λ x. Unit {0})
            (lot_size_from_risk default_lots balance risk d (pips.value_of symbol (lit 1 0)))
    unfolding lot_size_from_risk
    lots_return balance d (low, high, step, value) h =
        let positive : le d nought ≡ false = ground (arith, laws.not_lt_of_le d nought, h) in
        rw (positive, low, high, value d h, step) (_, refl, tt)

    abbrev IsOpenIn : Option (Trade F) → Type 0
    IsOpenIn none = Unit
    IsOpenIn (some t) = t.symbol ≡ symbol

    close-returns :
        (t : Trade F) (price : F) (ts : ℕ) (reason : TradeReason)
        → eq (pips.size_of symbol) nought ≡ false
        → t.symbol ≡ symbol
        → ReturnsWith (λ x. Unit {0}) (close pips t price ts reason)
    unfolding close pnl
    close-returns t price ts reason size same =
        let size' : eq (pips.size_of t.symbol) nought ≡ false = rw same size in
        rw size' (_, refl, tt)

    check-returns :
        (t : Trade F) (bar : Bar F) (ts : ℕ)
        → eq (pips.size_of symbol) nought ≡ false
        → t.symbol ≡ symbol
        → ReturnsWith (λ x. Unit {0}) (check_stop_or_target pips t bar ts)
    unfolding check_stop_or_target
    check-returns t bar ts size same =
        let at_stop =
          ReturnsWith->>= {Q = λ x. Unit {0}} (close pips t t.stop_loss ts TradeReason.stop)
            (λ c. ok (some c)) (close-returns t t.stop_loss ts TradeReason.stop size same)
            (λ c u. (some c, refl, tt)) in
        let at_target =
          ReturnsWith->>= {Q = λ x. Unit {0}} (close pips t t.take_profit ts TradeReason.target)
            (λ c. ok (some c)) (close-returns t t.take_profit ts TradeReason.target size same)
            (λ c u. (some c, refl, tt)) in
        let open_still : ReturnsWith (λ (x : Option (Trade F)). Unit {0}) (ok none) =
          (none, refl, tt) in
        ReturnsWith-if (is_buy t.side) _ _
          (ReturnsWith-if (le bar.low t.stop_loss) _ _ at_stop
            (ReturnsWith-if (le t.take_profit bar.high) _ _ at_target open_still))
          (ReturnsWith-if (le t.stop_loss bar.high) _ _ at_stop
            (ReturnsWith-if (le bar.low t.take_profit) _ _ at_target open_still))

    still_open :
        (o : Option (Trade F)) (b : Book F)
        → IsOpenIn b.open_trade
        → IsOpenIn (filled b o).open_trade
    still_open none b h = h
    still_open (some t) b h = tt

    exits-returns :
        (bar : Bar F) (ts : ℕ) (o : Option (Trade F)) (b : Book F)
        → eq (pips.size_of symbol) nought ≡ false
        → IsOpenIn o
        → IsOpenIn b.open_trade
        → ReturnsWith (λ (c : Book F). IsOpenIn c.open_trade) (exits pips bar ts o b)
    unfolding exits
    exits-returns bar ts none b size h k = (b, refl, k)
    exits-returns bar ts (some t) b size h k =
        ReturnsWith->>= (check_stop_or_target pips t bar ts) (λ o. ok (filled b o))
          (check-returns t bar ts size h) (λ o u. (filled b o, refl, still_open o b k))

    signal_lots-returns :
        (equity d : F)
        → IsSizable pips risk symbol
        → ReturnsWith (λ l. Unit {0}) (signal_lots pips equity risk d symbol)
    signal_lots-returns equity d sizable = elim (Bool-cases (lt nought d)) [
      | inl far ↦ rw far (lots_return equity d sizable far)
      | inr near ↦ rw near (lit 1 2, refl, tt)
    ]

    open_from_signal-returns :
        (sig : Signal F) (equity : F)
        → eq (pips.size_of symbol) nought ≡ false
        → IsSizable pips risk symbol
        → ReturnsWith
            (λ (t : Trade F). t.symbol ≡ symbol)
            (open_from_signal pips sig equity risk symbol)
    unfolding open_from_signal
    open_from_signal-returns sig equity size sizable =
        ReturnsWith->>= {P = λ d. Unit {0}}
          (stop_pips pips sig.price (or_zero sig.stop_loss) symbol) _
          (ReturnsWith-if (lt nought _) _ _ (divide_returns _ _ size) (nought, refl, tt))
          (λ d u.
            ReturnsWith->>= {P = λ l. Unit {0}} (signal_lots pips equity risk d symbol) _
              (signal_lots-returns equity d sizable) (λ l v. (_, refl, refl)))

    abbrev HoldsOnly : Book F → Type 0
    HoldsOnly b = IsOpenIn b.open_trade

    module _ (size : eq (pips.size_of symbol) nought ≡ false) (sizable : IsSizable pips risk symbol)
        (strategy : Strategy F)
        (signals : (window : List (Row F)) → ReturnsWith (λ s. Unit {0}) (strategy window)) where
      entries-returns :
          (window : List (Row F)) (o : Option (Trade F)) (b : Book F)
          → HoldsOnly b
          → ReturnsWith HoldsOnly (entries pips strategy risk symbol window o b)
      unfolding entries
      entries-returns window (some t) b h = (b, refl, h)
      entries-returns window none b h =
          ReturnsWith->>= {P = λ s. Unit {0}} (strategy window) (enter pips risk symbol b)
            (signals window)
            (λ sig u.
              ReturnsWith-if (is_buy sig.type || is_sell sig.type) _ _
                (ReturnsWith->>= (open_from_signal pips sig b.equity risk symbol) _
                  (open_from_signal-returns sig b.equity size sizable) (λ t same. (_, refl, same)))
                (b, refl, h))

      on_bar-returns :
          (window : List (Row F)) (row : Row F) (b : Book F)
          → HoldsOnly b
          → ReturnsWith HoldsOnly (on_bar pips strategy risk symbol window row b)
      unfolding on_bar
      on_bar-returns window (ts, bar) b h =
          ReturnsWith->>= {P = HoldsOnly} (exits pips bar ts b.open_trade b) _
            (exits-returns bar ts b.open_trade b size h h)
            (λ b₁ h₁.
              ReturnsWith->>= {P = HoldsOnly}
                (entries pips strategy risk symbol window b₁.open_trade b₁) _
                (entries-returns window b₁.open_trade b₁ h₁) (λ b₂ h₂. (_, refl, h₂)))

      loop-returns :
          (before rows : List (Row F)) (b : Book F)
          → HoldsOnly b
          → ReturnsWith HoldsOnly (loop pips strategy risk symbol before rows b)
      unfolding loop
      loop-returns before [] b h = (b, refl, h)
      loop-returns before (row ∷ rows) b h =
          ReturnsWith->>= {P = HoldsOnly}
            (on_bar pips strategy risk symbol (before ++ row ∷ []) row b) _
            (on_bar-returns (before ++ row ∷ []) row b h)
            (λ c k. loop-returns (before ++ row ∷ []) rows c k)

      at_end-returns :
          (row : Option (Row F)) (o : Option (Trade F)) (b : Book F)
          → IsOpenIn o
          → ReturnsWith (λ c. Unit {0}) (at_end pips row o b)
      unfolding at_end
      at_end-returns (some (ts, bar)) (some t) b h =
          ReturnsWith->>= (close pips t bar.close_price ts TradeReason.end_of_data) _
            (close-returns t bar.close_price ts TradeReason.end_of_data size h)
            (λ c u. (_, refl, tt))
      at_end-returns (some row) none b h = (b, refl, tt)
      at_end-returns none o b h = (b, refl, tt)

      -- A simulation of a strategy that raises on no bars, over any rows, returns a result, if the
      -- starting equity and the pip size of the symbol are not 0, the risk is between 0 and 1, and no positive stop distance of the
      -- symbol is worth nothing.
      pub run_backtest-returns :
          (start : F) (lookback : ℕ) (rows : List (Row F))
          → eq start nought ≡ false
          → ReturnsWith (λ r. Unit {0}) (run_backtest pips strategy start risk lookback symbol rows)
      unfolding run_backtest
      run_backtest-returns start lookback rows h =
          ReturnsWith->>= {P = HoldsOnly} (loop pips strategy risk symbol _ _ (opening_book start))
            _ (loop-returns (take lookback rows) (drop lookback rows) (opening_book start) tt)
            (λ b k.
              ReturnsWith->>= {P = λ c. Unit {0}} (at_end pips (last? rows) b.open_trade b) _
                (at_end-returns (last? rows) b.open_trade b k)
                (λ c u.
                  ReturnsWith->>= {P = λ x. Unit {0}} (divide (f.sub c.equity start) start) _
                    (divide_returns _ _ h) (λ x v. (_, refl, tt))))
