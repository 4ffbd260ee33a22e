-- ===== src/Core/Tests/Book.antt =====
-- The book of one symbol.
use exchange_engine.Base.{inl, ◌+◌, ◌^◌, ◌<◌, ◌≡◌, refl, ◌⊎◌, true, false, some, arith, pos}
use exchange_engine.Base.Maps.{lookup}
use exchange_engine.Core.Types.{order_not_found, buy, limit, gtc, ioc, po, RejectReason}
use exchange_engine.Core.Sequence.{initial}
use exchange_engine.Core.SideBook.Every.{Every}
use exchange_engine.Core.SideBook.Queues.{IsTidy}
use exchange_engine.Core.OrderBook.State.{find_order, opposing_book, book_for_side, has_order}
use exchange_engine.Core.OrderBook.Log.{reject}
use exchange_engine.Core.OrderBook.Matching.{match_loop, match_fuel, match_incoming_order}
use exchange_engine.Core.OrderBook.Matching.Termination.{match_loop-match_fuel}
use exchange_engine.Core.OrderBook.Matching.Conservation.{traded_lots, match_incoming_balance}
use exchange_engine.Core.OrderBook.Matching.Prices.{Priced, WithinLimit, match_incoming_prices}
use exchange_engine.Core.OrderBook.Place.{process_place, matching_price_for_command}
use exchange_engine.Core.OrderBook.Place.Terms.{Acceptable, opens_accepted, process_place_cases}
use exchange_engine.Core.OrderBook.Place.Resting.{never_rests, post_only_never_trades}
use exchange_engine.Core.OrderBook.Cancel.{cancel_target, process_cancel}
use exchange_engine.Core.OrderBook.Cancel.Effects.{may_cancel, Leaves, process_cancel_cases}
use exchange_engine.Base.{if◌then◌else◌, is_some, eqb_ℤ}
use exchange_engine.Core.Level.{new_level}
use exchange_engine.Core.FarMap.{find, get_or_create_level, remove_level_if_empty}
use exchange_engine.Core.FarMap
use exchange_engine.Core.FarMap.Best.{BestPrice, best_level-BestPrice}
use exchange_engine.Core.FarMap.Sorted.{IsSorted, get_or_create_level-IsSorted}
use exchange_engine.Core.Tests.{sell, offers, Order, Place, Side, cancel_8, book, bid, crossing}

match_loop_example :
    match_loop (match_fuel crossing) crossing ≡ some (match_incoming_order crossing)
match_loop_example = match_loop-match_fuel crossing

match_incoming_balance_example :
    (traded_lots (match_incoming_order crossing).log.0
        + (match_incoming_order crossing).incoming.remaining_quantity
      ≡ 5)
    × ((match_incoming_order crossing).incoming.remaining_quantity < 2 ^ 64)
match_incoming_balance_example = match_incoming_balance crossing (omega arith)

match_incoming_prices_example :
    WithinLimit buy (pos 100) (match_incoming_order crossing).log.0
    × Every Priced (
        opposing_book
          (match_incoming_order crossing).book
          (match_incoming_order crossing).incoming.side)
unfolding matching_price_for_command
match_incoming_prices_example =
    match_incoming_prices crossing refl
      (record { slots = tt; entries = ((refl, (refl, tt)), ((refl, tt), tt)) }) tt

process_place_example :
    (Acceptable book (bid 1 limit gtc 100)
      × (opens_accepted (process_place book (bid 1 limit gtc 100) initial).1.0 ≡ true))
    ⊎ (¬ Acceptable book (bid 1 limit gtc 100)
        × ((reason : RejectReason) × (process_place book (bid 1 limit gtc 100) initial
              ≡ (book, reject initial 1 20 3 1 reason))))
process_place_example = process_place_cases book (bid 1 limit gtc 100) initial

post_only_example :
    (traded_lots (process_place book (bid 1 limit po 95) initial).1.0 ≡ 0)
    × (opposing_book (process_place book (bid 1 limit po 95) initial).0 buy ≡ book.asks)
post_only_example = post_only_never_trades book (bid 1 limit po 95) initial refl refl

never_rests_example :
    (has_order (process_place book (bid 1 limit ioc 95) initial).0 20 ≡ false)
    × (book_for_side (process_place book (bid 1 limit ioc 95) initial).0 buy ≡ book.bids)
unfolding lookup
never_rests_example = never_rests book (bid 1 limit ioc 95) initial 20 (inl (inl refl)) refl

book-IsTidy : (side : Side) → IsTidy (book_for_side book side)
book-IsTidy buy = record { levels = record { slots = tt; entries = tt }; sorted = tt }
book-IsTidy sell = record {
  levels = record {
    slots = tt;
    entries = (
      record { total = refl; bound = omega arith; live = (omega arith, (omega arith, tt)) },
      (record { total = refl; bound = omega arith; live = (omega arith, tt) }, tt),
    );
  };
  sorted = ((refl, tt), (tt, tt));
}

process_cancel_example :
    ((may_cancel book cancel_8 ≡ true)
      × ((side : Side) × (place : Place) × (o : Order) × (find_order book
              (cancel_target book cancel_8)
            ≡ some (side, place, o))
          × Leaves book
              (cancel_target book cancel_8)
              side
              place
              o
              (process_cancel book cancel_8 initial)))
    ⊎ ((may_cancel book cancel_8 ≡ false)
        × (process_cancel book cancel_8 initial
            ≡ (book, reject initial 3 (cancel_target book cancel_8) 2 1 order_not_found)))
process_cancel_example = process_cancel_cases book cancel_8 initial book-IsTidy

far_map_example :
    IsSorted (get_or_create_level offers.far_map (pos 102)).levels
    × IsSorted (remove_level_if_empty offers.far_map (pos 102)).levels
    × (find (pos 102) (get_or_create_level offers.far_map (pos 102)).levels ≡ (
        if is_some (find (pos 102) offers.far_map.levels)
        then find (pos 102) offers.far_map.levels
        else (if eqb_ℤ (pos 102) (pos 102)
            then some (new_level (pos 102))
            else find (pos 102) offers.far_map.levels)))
far_map_example =
    get_or_create_level-IsSorted offers.far_map (pos 102) (pos 102) ((refl, tt), (tt, tt))

far_best_example : BestPrice sell offers.far_map.levels (pos 105) (FarMap.best_level offers.far_map)
far_best_example = best_level-BestPrice offers.far_map (pos 105) ((refl, tt), (tt, tt))
