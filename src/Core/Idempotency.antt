-- ===== src/Core/Idempotency.antt =====
-- include/core/IdempotencyIndex.hpp, Snapshot.hpp (its summaries) and src/core/IdempotencyIndex.cpp:
-- the commands and order ids that the engine has seen.
use exchange_engine.Base.{ℕ, Bool, Option, List, [], Map, insert, contains, member, add}
use exchange_engine.Core.Types.{RejectReason}

pub record CommandResultSummary : Type 0 where
  pub command_id : ℕ
  pub accepted : Bool
  pub order_id : Option ℕ
  pub reject_reason : Option RejectReason
  pub sequence : ℕ

-- `IdempotencyIndex` has the fields of its snapshot.
pub record IdempotencySnapshot : Type 0 where
  pub processed_command_ids : Map CommandResultSummary
  pub client_order_id_to_order_id : Map ℕ
  pub order_ids : List ℕ

abbrev pub IdempotencyIndex : Type 0
IdempotencyIndex = IdempotencySnapshot

abbrev pub empty_index : IdempotencyIndex
empty_index = record {
  processed_command_ids = [];
  client_order_id_to_order_id = [];
  order_ids = [];
}

abbrev pub has_command : IdempotencyIndex → ℕ → Bool
has_command index command_id = contains command_id index.processed_command_ids

abbrev pub has_order_id : IdempotencyIndex → ℕ → Bool
has_order_id index order_id = member order_id index.order_ids

abbrev pub has_client_order_id : IdempotencyIndex → ℕ → Bool
has_client_order_id index client_order_id =
    contains client_order_id index.client_order_id_to_order_id

abbrev pub record_command : IdempotencyIndex → ℕ → CommandResultSummary → IdempotencyIndex
record_command index command_id summary = record index {
  processed_command_ids =
      insert command_id (record summary { command_id = command_id }) index.processed_command_ids;
}

abbrev pub record_order_id : IdempotencyIndex → ℕ → IdempotencyIndex
record_order_id index order_id = record index { order_ids = add order_id index.order_ids }

abbrev pub record_client_order_id : IdempotencyIndex → ℕ → ℕ → IdempotencyIndex
record_client_order_id index client_order_id order_id = record index {
  client_order_id_to_order_id = insert client_order_id order_id index.client_order_id_to_order_id;
}

abbrev pub snapshot : IdempotencyIndex → IdempotencySnapshot
snapshot index = index

abbrev pub restore : IdempotencyIndex → IdempotencySnapshot → IdempotencyIndex
restore index s = record {
  processed_command_ids = s.processed_command_ids;
  client_order_id_to_order_id = s.client_order_id_to_order_id;
  order_ids = s.order_ids;
}
