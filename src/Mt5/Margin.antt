-- ===== src/Mt5/Margin.antt =====
-- The margin pre-flight of the live executor: `_fit_to_margin` of src/execution/mt5_live.py.
use forex_ea.Prelude.{◌≡◌, refl, false, some, Bool-cases, inl, inr, ◌⊎◌}
use forex_ea.Float.{Float, IsOrdered, IsNumber, ◌≼◌}
use forex_ea.Execution.{Order, OrderStatus, is_buy}
use forex_ea.Mt5.{Terminal, AccountInfo, SymbolSpec, fit_to_margin, max_lot_of, scale}

module _ {F : Type 0} ⦃f : Float F⦄ (laws : IsOrdered F) where
  open f use {nought, mul, div, floor_div, lt, le, lit}

  -- A lot within the margin and within the request, or no order at all.
  abbrev pub IsFitted : Order F → SymbolSpec F → F → Order F → Type 0
  IsFitted o info max_lot o' =
      (o'.status ≡ OrderStatus.rejected)
      ⊎ ((o'.lot_size ≼ max_lot)
          × (o'.lot_size ≼ o.lot_size)
          × (lt max_lot info.volume_min ≡ false))

  scale-IsFitted :
      (o : Order F) (info : SymbolSpec F) (max_lot : F)
      → IsNumber o.lot_size
      → IsNumber max_lot
      → IsFitted o info max_lot (scale o info max_lot)
  scale-IsFitted o info max_lot lots carries = elim (Bool-cases (lt max_lot info.volume_min)) [
    | inl small ↦ rw small (inl refl)
    | inr large ↦ elim (Bool-cases (lt max_lot o.lot_size)) [
      | inl over ↦ rw (large, over) (inr (carries, laws.le_of_lt max_lot o.lot_size over, refl))
      | inr under ↦
          rw (large, under)
            (inr (laws.le_of_not_lt max_lot o.lot_size carries lots under, lots, refl))
    ]
  ]

  -- Where the terminal says what a lot's margin is, the pre-flight either refuses the order or leaves a
  -- lot that is at most the one asked for and at most nine tenths of the free margin, divided by the
  -- margin of a lot and rounded down to the broker's step, and this is not below the broker's minimum.
  pub fit_to_margin-IsFitted :
      {T : Type 0} (mt5 : Terminal F T) (o : Order F) (price : F) (t : T) (info : SymbolSpec F)
      (acct : AccountInfo F) (margin : F)
      → mt5.symbol_info o.symbol t ≡ some info
      → mt5.account_info t ≡ some acct
      → mt5.order_calc_margin (is_buy o.side) o.symbol price t ≡ some margin
      → le margin nought ≡ false
      → IsNumber o.lot_size
      → let room = div (mul acct.margin_free (lit 9 1)) margin in
        let max_lot = mul (floor_div room info.volume_step) info.volume_step in
        IsNumber max_lot → IsFitted o info max_lot (fit_to_margin mt5 o price t)
  unfolding fit_to_margin
  fit_to_margin-IsFitted mt5 o price t info acct margin known funded priced positive lots carries =
      elim (Bool-cases (le acct.margin_free nought)) [
        | inl broke ↦ rw (known, funded, priced, positive, broke) (inl refl)
        | inr free ↦
            rw (known, funded, priced, positive, free)
              (scale-IsFitted o info (max_lot_of info acct margin) lots carries)
      ]
