-- ===== src/Core/OrderBook/Log.antt =====
-- The events of a command as they are pushed, each with its stamps from the generator.
use exchange_engine.Base.{ℕ, List, [], ◌∷◌, ◌++◌, if◌then◌else◌}
use exchange_engine.Core.FixedPoint.{Quantity, subtract_lots}
use exchange_engine.Core.Types.{
  RejectReason, EngineEvent, order_partial, order_filled, Order, is_filled,
}
use exchange_engine.Core.Sequence.{
  SequenceGenerator, take_sequence, take_event_id, take_trade_id, stamp, optional_order_id,
  make_rejection,
}

-- The events pushed so far and the generator.
abbrev pub Log : Type 0
Log = List EngineEvent × SequenceGenerator

-- `events.push_back(make{next_event_id(), next_sequence(), …})`
unfoldable pub push_event : Log → (ℕ → ℕ → EngineEvent) → Log
unfolding stamp
push_event (events, g) make = let (e, g') = stamp g make in (events ++ (e ∷ []), g')

-- TradeExecuted takes a trade id after the two stamps.
unfoldable pub push_trade : Log → (ℕ → ℕ → ℕ → EngineEvent) → Log
unfolding take_event_id take_sequence take_trade_id
push_trade (events, g) make =
    let (event_id, g1) = take_event_id g in
    let (sequence, g2) = take_sequence g1 in
    let (trade_id, g3) = take_trade_id g2 in (events ++ (make event_id sequence trade_id ∷ []), g3)

abbrev pub filled_quantity : Order → Quantity
filled_quantity o = subtract_lots o.original_quantity o.remaining_quantity

-- The event of an order that a fill has left as `o`.
unfoldable pub push_fill : Log → Order → Log
push_fill log o =
    if is_filled o
    then push_event log (λ e s. order_filled e s o.order_id)
    else push_event log
        (λ e s. order_partial e s o.order_id (filled_quantity o) o.remaining_quantity)

-- `return {make_rejection(…)}`
unfoldable pub reject : SequenceGenerator → ℕ → ℕ → ℕ → ℕ → RejectReason → Log
reject g command_id order_id user_id symbol_id reason =
    let (e, g') =
      make_rejection g command_id (optional_order_id order_id) user_id symbol_id reason in
    (e ∷ [], g')
