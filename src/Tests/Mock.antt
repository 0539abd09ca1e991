-- ===== src/Tests/Mock.antt =====
-- Two orders of a dry run, the first of which reaches its target.
use forex_ea.Prelude.{◌≡◌, List, [], ◌∷◌}
use forex_ea.Prelude.Int.{ℤ, pos}
use forex_ea.Float.Fixed.{fixed_float}
use forex_ea.Mock.{MockExecutor, new_mock, mock_open_orders}
use forex_ea.Mock.Book.{MockCall, perform_all, book, IsNew, mock_open_orders-book}
use forex_ea.Tests.Execution.{buy_order}

abbrev start : MockExecutor ℤ
start = new_mock (pos 100_000_000)

abbrev calls : List (MockCall ℤ)
calls =
    MockCall.placed buy_order
    ∷ MockCall.placed buy_order
    ∷ MockCall.closing 60 buy_order "target"
    ∷ []

mock_open_orders-book_example :
    (mock_open_orders (perform_all calls start) ≡ book calls 1 (mock_open_orders start))
    × IsNew (perform_all calls start).next_id (perform_all calls start).orders
mock_open_orders-book_example = mock_open_orders-book calls start tt
