-- ===== src/Core/OrderBook/Cancel.antt =====
-- `process_cancel` and `cancel_existing_order`.
pub mod Effects
use exchange_engine.Base.{ℕ, ◌-◌, none, some, [], ltb, ◌==◌, if◌then◌else◌, lookup, erase}
use exchange_engine.Core.FixedPoint.{Quantity}
use exchange_engine.Core.Types.{
  Side, order_not_found, CancelOrderCommand, order_cancelled, order_book_delta, Order,
}
use exchange_engine.Core.Sequence.{SequenceGenerator}
use exchange_engine.Core.SideBook.{SideBook, Place, remove_order}
use exchange_engine.Core.OrderBook.State.{
  OrderBook, book_for_side, with_side, level_total, find_order,
}
use exchange_engine.Core.OrderBook.Log.{push_event, reject}
use exchange_engine.Core.OrderBook.Place.{Outcome}

unfoldable pub total_after_cancel : SideBook → Place → Quantity → Quantity
total_after_cancel s place released =
    if ltb released (level_total s place) then level_total s place - released else 0

-- The cancellation of an order that was found.
unfoldable pub cancel_found : OrderBook → ℕ → Side → Place → Order → SequenceGenerator → Outcome
cancel_found b id side place o g =
    let s = book_for_side b side in
    let total = total_after_cancel s place o.remaining_quantity in
    let unindexed = record b {
      order_by_id = erase o.order_id b.order_by_id;
      client_order_id_to_order_id = erase o.client_order_id b.client_order_id_to_order_id;
    } in
    let cancelled = push_event ([], g) (λ e q. order_cancelled e q id o.remaining_quantity) in
    (
      with_side unindexed side (remove_order s place o.order_id),
      push_event cancelled
          (λ e q. order_book_delta e q b.symbol_config.symbol_id o.side o.price total),
    )

unfoldable pub cancel_existing_order : OrderBook → ℕ → SequenceGenerator → Outcome
cancel_existing_order b id g = elim (find_order b id) [
  | none ↦ (b, reject g 0 id 0 b.symbol_config.symbol_id order_not_found)
  | some (side, place, o) ↦ cancel_found b id side place o g
]

unfoldable pub cancel_target : OrderBook → CancelOrderCommand → ℕ
cancel_target b c =
    if c.order_id == 0
    then (elim (lookup c.client_order_id b.client_order_id_to_order_id) [
      | none ↦ c.order_id
      | some id ↦ id
    ])
    else c.order_id

unfoldable pub process_cancel : OrderBook → CancelOrderCommand → SequenceGenerator → Outcome
process_cancel b c g =
    let target = cancel_target b c in
    let refused : Outcome =
      (b, reject g c.command_id target c.user_id c.symbol_id order_not_found) in
    elim (find_order b target) [
      | none ↦ refused
      | some (side, place, o) ↦
          if o.user_id == c.user_id then cancel_existing_order b target g else refused
    ]
