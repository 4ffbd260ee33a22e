-- ===== src/Core/OrderBook/Place/Resting.antt =====
-- Orders that never trade on arrival, and orders that never rest.
use exchange_engine.Base.{
  ◌⊎◌, Bool, zero, suc, some_inv, is_some, is_some, ℕ, ◌<◌, ◌≡◌, refl, sym, ap, ◌∙◌, subst, true,
  false, not, ◌&&◌, Option, none, some, arith, inl, inr, Option-cases, Bool-cases, ◌==◌,
  if◌then◌else◌, Map, lookup, erase, lookup-erase,
}
use exchange_engine.Core.FixedPoint.{Price}
use exchange_engine.Core.Types.{
  RejectReason, market, ioc, fok, Side, buy, sell, is_limit, is_po, PlaceOrderCommand, Order,
  is_filled,
}
use exchange_engine.Core.Sequence.{SequenceGenerator, make_rejection}
use exchange_engine.Core.SideBook.{SideBook, Place, price_crosses}
use exchange_engine.Core.OrderBook.State.{
  insert_remaining_as_resting, OrderBook, OrderRef, opposing_book, opposite_side, book_for_side,
  with_side, has_order,
}
use exchange_engine.Core.OrderBook.Log.{reject}
use exchange_engine.Core.OrderBook.Matching.{
  Matching, next_maker, fill_maker, settle, match_incoming_order, match_loop, match_fuel,
}
use exchange_engine.Core.OrderBook.Matching.Round.{incoming-fill_maker}
use exchange_engine.Core.OrderBook.Matching.Termination.{match_incoming_rule, match_loop-match_fuel}
use exchange_engine.Core.OrderBook.Matching.Conservation.{traded_lots, traded-push_event}
use exchange_engine.Core.OrderBook.Place.{
  place_rejection, accept, can_rest, rest_remaining, finish_place, process_place,
  matching_price_for_command,
}
use exchange_engine.Core.OrderBook.Place.Terms.{Acceptable-of_none}

-- An index that names no order that the other does not name, nor names one elsewhere.
abbrev pub Shrinks {ℓ} : {V : Type ℓ} → Map V → Map V → Type ℓ
Shrinks {V = V} before after =
    (id : ℕ) (v : V) → lookup id after ≡ some v → lookup id before ≡ some v

Shrinks-erase {ℓ} :
    {V : Type ℓ} (before after : Map V) (k : ℕ)
    → Shrinks before after
    → Shrinks before (erase k after)
Shrinks-erase before after k h id v e = h id v (found (lookup-erase k id after))
  where
    found :
        lookup id (erase k after) ≡ (if k == id then none else lookup id after)
        → lookup id after ≡ some v
    found q = ground (arith, q, e)

order_by_id-with_side :
    (b : OrderBook) (side : Side) (s : SideBook) → (with_side b side s).order_by_id ≡ b.order_by_id
order_by_id-with_side b buy s = refl
order_by_id-with_side b sell s = refl

settle-Shrinks :
    (before : Map OrderRef) (b : OrderBook) (side : Side) (s : SideBook) (place : Place) (o : Order)
    → Shrinks before b.order_by_id
    → Shrinks before (settle b side s place o).order_by_id
unfolding settle
settle-Shrinks before b side s place o h = elim (Bool-cases (is_filled o)) [
  | inl e ↦
      rw e (rw (order_by_id-with_side _ side _) (Shrinks-erase before b.order_by_id o.order_id h))
  | inr e ↦ rw e (rw (order_by_id-with_side b side _) h)
]

fill_maker-Shrinks :
    (before : Map OrderRef) (m : Matching) (place : Place) (maker : Order)
    → Shrinks before m.book.order_by_id
    → Shrinks before (fill_maker m place maker).book.order_by_id
unfolding fill_maker
fill_maker-Shrinks before m place maker h =
    settle-Shrinks before (record (m.book) { last_trade_price = some maker.price }) _ _ place _ h

-- The loop indexes no order.
match-Shrinks :
    (m : Matching) → Shrinks m.book.order_by_id (match_incoming_order m).book.order_by_id
match-Shrinks m =
    (match_incoming_rule (λ k. Shrinks m.book.order_by_id k.book.order_by_id)
      (λ k place maker h e. fill_maker-Shrinks m.book.order_by_id k place maker h) m
      (λ id v e. e)).0

traded-reject :
    (g : SequenceGenerator) (command_id order_id user_id symbol_id : ℕ) (reason : RejectReason)
    → traded_lots (reject g command_id order_id user_id symbol_id reason).0 ≡ 0
unfolding reject make_rejection
traded-reject g command_id order_id user_id symbol_id reason = refl

book-accept :
    (b : OrderBook) (c : PlaceOrderCommand) (g : SequenceGenerator) → (accept b c g).book ≡ b
unfolding accept
book-accept b c g = refl

finish_gone :
    (c : PlaceOrderCommand) (m : Matching) → can_rest c ≡ false → (finish_place c m).0 ≡ m.book
unfolding finish_place
finish_gone c m h = rw h

gone :
    (b b' : OrderBook) (id : ℕ)
    → Shrinks b.order_by_id b'.order_by_id
    → has_order b id ≡ false
    → has_order b' id ≡ false
gone b b' id s n = elim (Option-cases (lookup id b'.order_by_id)) [
  | inl e ↦ rw e
  | inr (ref, e) ↦ cc (n, ap (is_some {A = OrderRef}) (s id ref e))
]

never_rests_index :
    (b : OrderBook) (c : PlaceOrderCommand) (g : SequenceGenerator)
    → can_rest c ≡ false
    → Shrinks b.order_by_id (process_place b c g).0.order_by_id
unfolding process_place accept
never_rests_index b c g h = elim (Option-cases (place_rejection b c)) [
  | inl e ↦
      rw (e, process_place, finish_gone c (match_incoming_order (accept b c g)) h)
        (match-Shrinks (accept b c g))
  | inr (reason, e) ↦ rw (e, process_place) (λ id v k. k)
]

settle-own :
    (b : OrderBook) (side : Side) (s : SideBook) (place : Place) (o : Order)
    → book_for_side (settle b (opposite_side side) s place o) side ≡ book_for_side b side
unfolding settle
settle-own b buy s place o = elim (Bool-cases (is_filled o)) [
  | inl e ↦ rw e refl
  | inr e ↦ rw e refl
]
settle-own b sell s place o = elim (Bool-cases (is_filled o)) [
  | inl e ↦ rw e refl
  | inr e ↦ rw e refl
]

last_trade-own :
    (b : OrderBook) (p : Option Price) (side : Side)
    → book_for_side (record b { last_trade_price = p }) side ≡ book_for_side b side
last_trade-own b p buy = refl
last_trade-own b p sell = refl

fill_maker-own :
    (m : Matching) (place : Place) (maker : Order)
    → book_for_side (fill_maker m place maker).book m.incoming.side
      ≡ book_for_side m.book m.incoming.side
unfolding fill_maker
fill_maker-own m place maker =
    settle-own _ m.incoming.side _ place _
    ∙ last_trade-own m.book (some maker.price) m.incoming.side

-- The loop leaves the incoming order's own side as it is.
match-own :
    (m : Matching)
    → book_for_side (match_incoming_order m).book m.incoming.side
      ≡ book_for_side m.book m.incoming.side
match-own m =
    ((match_incoming_rule
      (λ k.
        (k.incoming.side ≡ m.incoming.side)
        × (book_for_side k.book m.incoming.side ≡ book_for_side m.book m.incoming.side))
      (λ k place maker h e. (
        ap (λ (o : Order). o.side) (incoming-fill_maker k place maker) ∙ h.0,
        subst
              (λ (side : Side).
                book_for_side (fill_maker k place maker).book side ≡ book_for_side k.book side)
              h.0 (fill_maker-own k place maker)
            ∙ h.1,
      ))
      m (refl, refl)).0
    ).1

never_rests_own :
    (b : OrderBook) (c : PlaceOrderCommand) (g : SequenceGenerator)
    → can_rest c ≡ false
    → book_for_side (process_place b c g).0 c.side ≡ book_for_side b c.side
unfolding process_place accept
never_rests_own b c g h = elim (Option-cases (place_rejection b c)) [
  | inl e ↦
      rw (e, process_place, finish_gone c (match_incoming_order (accept b c g)) h)
        (match-own (accept b c g))
  | inr (reason, e) ↦ rw (e, process_place) refl
]

and_false : (b : Bool) → (b && false) ≡ false
and_false true = refl
and_false false = refl

cannot_rest :
    (c : PlaceOrderCommand)
    → ((c.time_in_force ≡ ioc) ⊎ (c.time_in_force ≡ fok)) ⊎ (c.order_type ≡ market)
    → can_rest c ≡ false
cannot_rest c (inl (inl e)) = rw e (and_false (is_limit c.order_type))
cannot_rest c (inl (inr e)) = rw e (and_false (is_limit c.order_type))
cannot_rest c (inr e) = rw e refl

-- A command whose time in force is immediate-or-cancel or fill-or-kill, or whose order type is market,
-- leaves its own side of the book as it is, and an order id that is not indexed before it is not
-- indexed after it: whatever it leaves unfilled is gone.
pub never_rests :
    (b : OrderBook) (c : PlaceOrderCommand) (g : SequenceGenerator) (id : ℕ)
    → ((c.time_in_force ≡ ioc) ⊎ (c.time_in_force ≡ fok)) ⊎ (c.order_type ≡ market)
    → has_order b id ≡ false
    → (has_order (process_place b c g).0 id ≡ false)
      × (book_for_side (process_place b c g).0 c.side ≡ book_for_side b c.side)
never_rests b c g id h n =
    let stays = cannot_rest c h in
    (
      gone b (process_place b c g).0 id (never_rests_index b c g stays) n,
      never_rests_own b c g stays,
    )

loop_stops :
    (fuel : ℕ) (m : Matching)
    → 0 < fuel
    → next_maker m.book m.incoming ≡ none
    → match_loop fuel m ≡ some m
unfolding match_loop
loop_stops zero m h e = absurd (omega arith)
loop_stops (suc fuel) m h e = rw (e, match_loop)

match_stops : (m : Matching) → next_maker m.book m.incoming ≡ none → match_incoming_order m ≡ m
match_stops m e =
    some_inv (sym (match_loop-match_fuel m) ∙ loop_stops (match_fuel m) m (omega arith) e)

post_only_stops :
    (b : OrderBook) (c : PlaceOrderCommand) (g : SequenceGenerator)
    → is_limit c.order_type ≡ true
    → price_crosses (opposing_book b c.side) c.price ≡ false
    → next_maker (accept b c g).book (accept b c g).incoming ≡ none
unfolding accept next_maker matching_price_for_command
post_only_stops b c g l h = rw (l, h) (ground arith)

opposing-insert :
    (b : OrderBook) (o : Order)
    → opposing_book (insert_remaining_as_resting b o) o.side ≡ opposing_book b o.side
unfolding insert_remaining_as_resting
opposing-insert b o = indexed o.side _ _ _
  where
    indexed :
        (side : Side) (index : Map OrderRef) (ids : Map ℕ) (s : SideBook)
        → opposing_book
            (with_side (record b { order_by_id = index; client_order_id_to_order_id = ids }) side s)
            side
          ≡ opposing_book b side
    indexed buy index ids s = refl
    indexed sell index ids s = refl

finish_untraded :
    (c : PlaceOrderCommand) (m : Matching)
    → m.incoming.side ≡ c.side
    → (traded_lots (finish_place c m).1.0 ≡ traded_lots m.log.0)
      × (opposing_book (finish_place c m).0 c.side ≡ opposing_book m.book c.side)
unfolding finish_place rest_remaining
finish_untraded c m e = elim (Bool-cases (can_rest c && not (is_filled m.incoming))) [
  | inl rests ↦ rw rests (
    traded-push_event m.log _ (λ e s. refl),
    subst
        (λ (side : Side).
          opposing_book
            (insert_remaining_as_resting m.book (record (m.incoming) { price = c.price })) side
          ≡ opposing_book m.book side)
        e (opposing-insert m.book (record (m.incoming) { price = c.price })),
  )
  | inr done ↦ rw done (refl, refl)
]

accept_untraded :
    (b : OrderBook) (c : PlaceOrderCommand) (g : SequenceGenerator)
    → (traded_lots (accept b c g).log.0 ≡ 0)
      × ((accept b c g).incoming.side ≡ c.side)
      × (opposing_book (accept b c g).book c.side ≡ opposing_book b c.side)
unfolding accept
accept_untraded b c g = (refl, refl, refl)

-- A post-only limit order never trades, whether it is accepted or not, and leaves the other side of
-- the book as it is.
pub post_only_never_trades :
    (b : OrderBook) (c : PlaceOrderCommand) (g : SequenceGenerator)
    → is_po c.time_in_force ≡ true
    → is_limit c.order_type ≡ true
    → (traded_lots (process_place b c g).1.0 ≡ 0)
      × (opposing_book (process_place b c g).0 c.side ≡ opposing_book b c.side)
unfolding process_place
post_only_never_trades b c g p l = elim (Option-cases (place_rejection b c)) [
  | inl e ↦
      let a = Acceptable-of_none b c e in
      let (none_yet, side, other) = accept_untraded b c g in
      let (none_new, same) = finish_untraded c (accept b c g) side in
      rw (e, process_place, match_stops (accept b c g) (post_only_stops b c g l (a.passive p)))
        (none_new ∙ none_yet, same ∙ other)
  | inr (reason, e) ↦ rw (e, process_place) (rejected reason, refl)
]
  where
    rejected :
        (reason : RejectReason)
        → traded_lots (reject g c.command_id c.order_id c.user_id c.symbol_id reason).0 ≡ 0
    rejected reason = traded-reject g c.command_id c.order_id c.user_id c.symbol_id reason
