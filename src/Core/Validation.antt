-- ===== src/Core/Validation.antt =====
-- src/core/Validation.hpp and src/core/Validation.cpp: the checks made before a command reaches its
-- book.
use exchange_engine.Base.{Bool, true, false, not, ◌||◌, Option, none, some, if◌then◌else◌}
use exchange_engine.Core.FixedPoint.{Price, Quantity}
use exchange_engine.Core.Types.{
  RejectReason, duplicate_command, duplicate_order, market_closed, invalid_price, invalid_quantity,
  PlaceOrderCommand, CancelOrderCommand, SymbolConfig, is_limit, validate_symbol_price,
  validate_symbol_quantity,
}
use exchange_engine.Core.Idempotency.{
  IdempotencyIndex, has_command, has_order_id, has_client_order_id,
}

pub record ValidationResult : Type 0 where
  pub valid : Bool
  pub reason : Option RejectReason

abbrev pub valid : ValidationResult
valid = record { valid = true; reason = none }

abbrev pub invalid : RejectReason → ValidationResult
invalid reason = record { valid = false; reason = some reason }

unfoldable pub validate_price : Price → SymbolConfig → ValidationResult
validate_price p c = if not (validate_symbol_price p c) then invalid invalid_price else valid

unfoldable pub validate_quantity : Quantity → SymbolConfig → ValidationResult
validate_quantity q c =
    if not (validate_symbol_quantity q c) then invalid invalid_quantity else valid

unfoldable pub validate_place_order :
    PlaceOrderCommand → SymbolConfig → IdempotencyIndex → ValidationResult
unfolding validate_price validate_quantity
validate_place_order c config index =
    if has_command index c.command_id
    then invalid duplicate_command
    else (if has_order_id index c.order_id || has_client_order_id index c.client_order_id
        then invalid duplicate_order
        else (if not config.trading_enabled
            then invalid market_closed
            else (if not (validate_quantity c.quantity config).valid
                then validate_quantity c.quantity config
                else (if is_limit c.order_type
                    then (if not (validate_price c.price config).valid
                        then validate_price c.price config
                        else valid)
                    else valid))))

abbrev pub validate_cancel_order : CancelOrderCommand → SymbolConfig → ValidationResult
validate_cancel_order c config = valid
