-- ===== src/Engine/Tests.antt =====
-- The engine on a small book, and its theorems at that book.
use mini_stock_exchange_plat.Base.{Option, none, some, ◌+◌, ◌≡◌, refl, [], ◌∷◌, All, map, sum_of}
use mini_stock_exchange_plat.Engine.Book.{buy, sell}
use mini_stock_exchange_plat.Engine.Snapshot.{
  Snapshot, snapshot, get_book, IsShown, get_book-IsShown,
}
use mini_stock_exchange_plat.Engine.Match.{match, match_levels, drain, execute, make_trade}
use mini_stock_exchange_plat.Engine.Match.Trades.{IsFair, match_conserves, match-IsFair}
use mini_stock_exchange_plat.Engine.Match.Priority.{sweep, priority_queue, match-sweep}
use mini_stock_exchange_plat.Engine.Invariant.{IsValid}
use mini_stock_exchange_plat.Engine.Validity.{match-IsValid}
use mini_stock_exchange_plat.Engine.Samples.{small_book, wanted, small_book-IsValid}

-- The best price first and the front of a level first; the user's own order is skipped.
match_small : map (λ t. t.quantity) (match small_book wanted).trades ≡ 5 ∷ 4 ∷ 2 ∷ []
unfolding match match_levels drain execute make_trade
match_small = refl

match_conserves_example :
    let m = match small_book wanted in sum_of (λ t. t.quantity) m.trades + m.incoming.remaining ≡ 11
match_conserves_example = match_conserves small_book wanted small_book-IsValid.opposite_side.resting

match-IsFair_example : All (IsFair 0 wanted) (match small_book wanted).trades
match-IsFair_example = match-IsFair small_book wanted small_book-IsValid.opposite_side.resting

match-sweep_example :
    let s =
      sweep 0
        (priority_queue small_book wanted)
        (record { incoming = wanted; index = small_book.index; trades = [] }) in
    ((match small_book wanted).trades ≡ s.trades)
    × ((match small_book wanted).incoming ≡ s.incoming)
match-sweep_example = match-sweep small_book wanted small_book-IsValid.opposite_side.distinct

match-IsValid_example : IsValid (match small_book wanted).book
match-IsValid_example = match-IsValid small_book wanted small_book-IsValid

abbrev shown_book : Option Snapshot → Snapshot
shown_book none = snapshot small_book 0
shown_book (some shown) = shown

get_book-IsShown_example :
    let shown = shown_book (get_book small_book 2) in
    IsShown sell 2 shown.top_bid shown.bids × IsShown buy 2 shown.top_ask shown.asks
unfolding get_book
get_book-IsShown_example =
    get_book-IsShown small_book 2 (shown_book (get_book small_book 2))
      small_book-IsValid.own_side.distinct small_book-IsValid.opposite_side.distinct refl
