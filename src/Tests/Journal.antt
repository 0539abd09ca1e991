-- ===== src/Tests/Journal.antt =====
-- A journal of two open trades, one of which the broker has closed.
use forex_ea.Prelude.{ℕ, ◌≡◌, none, some, List, [], ◌∷◌, foldl}
use forex_ea.Prelude.Int.{ℤ, pos, negsuc}
use forex_ea.Float.Fixed.{fixed_float}
use forex_ea.Table.{lookup, nat_eq}
use forex_ea.Execution.{Order}
use forex_ea.Journal.{Journal, CloseInfo, opened_row}
use forex_ea.Journal.Lifecycle.{Call, perform, live, lookup-perform_all}
use forex_ea.Tests.Execution.{buy_order}

abbrev ticketed : ℕ → Order ℤ
ticketed n = record buy_order { id = n; broker_ticket = some n }

abbrev journal : Journal ℤ
journal = record {
  trades = (3, opened_row (ticketed 3)) ∷ (4, opened_row (ticketed 4)) ∷ [];
  modifications = [];
}

abbrev stopped : CloseInfo ℤ
stopped = record { exit_price = pos 10_900; closed_at = 60; pnl = negsuc 99 }

abbrev filled : CloseInfo ℤ
filled = record { exit_price = pos 11_300; closed_at = 90; pnl = pos 300 }

abbrev calls : List (Call ℤ)
calls =
    Call.opened (ticketed 5)
    ∷ Call.modified 3 (some (pos 10_950)) none 10
    ∷ Call.marked 4 stopped "reconciled_from_mt5"
    ∷ Call.opened (ticketed 3)
    ∷ []

lookup-perform_all_example :
    lookup 3 (foldl perform journal calls).trades ≡ foldl (live 3) (lookup 3 journal.trades) calls
lookup-perform_all_example = lookup-perform_all 3 calls journal
