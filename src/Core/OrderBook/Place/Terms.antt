-- ===== src/Core/OrderBook/Place/Terms.antt =====
-- What the terms of an order promise: acceptance, post-only, and orders that never rest.
use exchange_engine.Base.{
  ◌⊎◌, ℕ, ◌≡◌, refl, Bool, true, false, not, ◌&&◌, none, List, [], ◌∷◌, ◌++◌, arith, inl, inr,
  Option-cases, Bool-cases, ltb, contains,
}
use exchange_engine.Core.Types.{
  is_limit, is_po, is_fok, RejectReason, PlaceOrderCommand, EngineEvent, order_accepted, Order,
  is_filled, validate_symbol_price, validate_symbol_quantity,
}
use exchange_engine.Core.Sequence.{SequenceGenerator}
use exchange_engine.Core.SideBook.{Place, price_crosses}
use exchange_engine.Core.OrderBook.State.{OrderBook, opposing_book, has_order}
use exchange_engine.Core.OrderBook.Log.{push_trade, push_fill, Log, push_event, reject}
use exchange_engine.Core.OrderBook.Liquidity.{available_crossing_lots}
use exchange_engine.Core.OrderBook.Matching.{Matching, fill_maker, match_incoming_order}
use exchange_engine.Core.OrderBook.Matching.Termination.{match_incoming_rule}
use exchange_engine.Core.OrderBook.Place.{
  matching_price_for_command, place_rejection, accept, can_rest, rest_remaining, finish_place,
  process_place,
}

-- What an order has to meet.
pub record Acceptable (b : OrderBook) (c : PlaceOrderCommand) : Type 0 where
  pub new_id : has_order b c.order_id ≡ false
  pub new_client_id : contains c.client_order_id b.client_order_id_to_order_id ≡ false
  pub trading : b.symbol_config.trading_enabled ≡ true
  pub sized : validate_symbol_quantity c.quantity b.symbol_config ≡ true
  pub priced : is_limit c.order_type ≡ true → validate_symbol_price c.price b.symbol_config ≡ true
  pub passive :
      is_po c.time_in_force ≡ true → price_crosses (opposing_book b c.side) c.price ≡ false
  pub covered :
      is_fok c.time_in_force ≡ true
      → ltb
          (available_crossing_lots
            (opposing_book b c.side)
            (matching_price_for_command c)
            c.quantity)
          c.quantity
        ≡ false

pub Acceptable-of_none :
    (b : OrderBook) (c : PlaceOrderCommand) → place_rejection b c ≡ none → Acceptable b c
unfolding place_rejection
Acceptable-of_none b c e = ground arith

pub none-of_Acceptable :
    (b : OrderBook) (c : PlaceOrderCommand) → Acceptable b c → place_rejection b c ≡ none
unfolding place_rejection
none-of_Acceptable b c a = ground (arith, a.priced, a.passive, a.covered)

-- Whether the events open with an acceptance.
abbrev pub opens_accepted : List EngineEvent → Bool
opens_accepted (order_accepted e s o c u y side p q ∷ es) = true
opens_accepted _ = false

opens-snoc :
    (es : List EngineEvent) (e : EngineEvent)
    → opens_accepted es ≡ true
    → opens_accepted (es ++ (e ∷ [])) ≡ true
opens-snoc (order_accepted e s o c u y side p q ∷ es) x h = refl
opens-snoc [] x h = cc
opens-snoc (y ∷ es) x h = cc

opens-push_event :
    (log : Log) (make : ℕ → ℕ → EngineEvent)
    → opens_accepted log.0 ≡ true
    → opens_accepted (push_event log make).0 ≡ true
unfolding push_event
opens-push_event (es, g) make h = opens-snoc es (make g.next_event_id g.next_sequence) h

opens-push_trade :
    (log : Log) (make : ℕ → ℕ → ℕ → EngineEvent)
    → opens_accepted log.0 ≡ true
    → opens_accepted (push_trade log make).0 ≡ true
unfolding push_trade
opens-push_trade (es, g) make h =
    opens-snoc es (make g.next_event_id g.next_sequence g.next_trade_id) h

opens-push_fill :
    (log : Log) (o : Order)
    → opens_accepted log.0 ≡ true
    → opens_accepted (push_fill log o).0 ≡ true
unfolding push_fill
opens-push_fill log o h = elim (Bool-cases (is_filled o)) [
  | inl e ↦ rw e (opens-push_event log _ h)
  | inr e ↦ rw e (opens-push_event log _ h)
]

opens-fill_maker :
    (m : Matching) (place : Place) (maker : Order)
    → opens_accepted m.log.0 ≡ true
    → opens_accepted (fill_maker m place maker).log.0 ≡ true
unfolding fill_maker
opens-fill_maker m place maker h =
    opens-push_event _ _ (opens-push_fill _ _ (opens-push_fill _ _ (opens-push_trade m.log _ h)))

opens-finish :
    (c : PlaceOrderCommand) (m : Matching)
    → opens_accepted m.log.0 ≡ true
    → opens_accepted (finish_place c m).1.0 ≡ true
unfolding finish_place rest_remaining
opens-finish c m h = elim (Bool-cases (can_rest c && not (is_filled m.incoming))) [
  | inl e ↦ rw e (opens-push_event m.log _ h)
  | inr e ↦ rw e h
]

accept-opens :
    (b : OrderBook) (c : PlaceOrderCommand) (g : SequenceGenerator)
    → opens_accepted (accept b c g).log.0 ≡ true
unfolding accept
accept-opens b c g = refl

-- A place command is accepted, and its answer opens with the acceptance, exactly when its ids are
-- new, the market is open, its quantity and, for a limit order, its price fit the symbol, a post-only
-- order does not cross the other side, and a fill-or-kill order finds enough lots there; otherwise
-- the book is as before and the answer is one rejection.
pub process_place_cases :
    (b : OrderBook) (c : PlaceOrderCommand) (g : SequenceGenerator)
    → (Acceptable b c × (opens_accepted (process_place b c g).1.0 ≡ true))
      ⊎ (¬ Acceptable b c
          × ((reason : RejectReason) × (process_place b c g
                ≡ (b, reject g c.command_id c.order_id c.user_id c.symbol_id reason))))
unfolding process_place
process_place_cases b c g = elim (Option-cases (place_rejection b c)) [
  | inl e ↦ inl (Acceptable-of_none b c e, rw (e, process_place) opened)
  | inr (reason, e) ↦
      inr (λ a. cc (e, none-of_Acceptable b c a), (reason, rw (e, process_place) refl))
]
  where
    opened : opens_accepted (finish_place c (match_incoming_order (accept b c g))).1.0 ≡ true
    opened = opens-finish c (match_incoming_order (accept b c g)) (
        (match_incoming_rule (λ m. opens_accepted m.log.0 ≡ true)
          (λ m place maker h e. opens-fill_maker m place maker h) (accept b c g)
          (accept-opens b c g)).0)
