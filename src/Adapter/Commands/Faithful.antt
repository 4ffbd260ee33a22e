-- ===== src/Adapter/Commands/Faithful.antt =====
-- Which inputs are mapped to a command of the core, and to which.
use exchange_engine.Base.{
  ◌∙◌, ℕ, ◌<◌, ◌^◌, ◌≡◌, refl, subst, ap, Bool, true, false, ◌&&◌, some, none, List, pos, pos_part,
}
use exchange_engine.Core.Types.{PlaceOrderCommand, CancelOrderCommand, place_order}
use exchange_engine.Adapter.{
  OrderMetadata, PlaceOrderInput, CancelOrderInput, MappedCommand, stable_string_id,
}
use exchange_engine.Adapter.Commands.{
  cancel_command, map_place_order_to_core, map_cancel_order_to_core,
}
use exchange_engine.Adapter.Commands.Same.{
  SameSide, SameOrderType, SameTimeInForce, same_side, same_order_type, same_time_in_force,
  IsMetadataOf, metadata_of-IsMetadataOf,
}
use exchange_engine.Adapter.Commands.Checks.{
  Agrees, Agrees-bind, IsId, stable_string_id-IsId, filled, positive, natural, is_symbol, is_price,
  require_non_empty_lem, command_id_lem, client_order_id_lem, to_core_order_id_lem,
  to_core_user_id_lem, to_core_symbol_id_lem, to_core_price_lem, to_core_quantity_lem,
  validate_envelope_lem,
}

-- What a place input has to meet.
abbrev pub is_place : PlaceOrderInput → Bool
is_place i =
    filled i.envelope.request_id
    && (filled i.envelope.idempotency_key
        && (natural i.envelope.user_id
            && (filled i.reservation_id
                && (positive i.order_id
                    && (is_symbol i.market_id
                        && (is_price i.order_type i.price && positive i.quantity))))))

-- The command says what the input says, under ids that are positive words, and the metadata is that
-- of the input and the command.
pub record IsPlaceOf (i : PlaceOrderInput) (s : ℕ) (m : MappedCommand) : Type 0 where
  pub c : PlaceOrderCommand
  pub kind : m.command.kind ≡ place_order
  pub placed : (m.command.place ≡ some c) × (m.command.cancel ≡ none)
  pub metadata : OrderMetadata
  pub recorded : (m.metadata_to_record ≡ some metadata) × IsMetadataOf i c metadata
  pub command_id : (c.command_id ≡ stable_string_id i.envelope.request_id) × IsId c.command_id
  pub client_order_id :
      (c.client_order_id ≡ stable_string_id i.envelope.idempotency_key) × IsId c.client_order_id
  pub order_id : pos c.order_id ≡ i.order_id
  pub user_id : pos c.user_id ≡ i.envelope.user_id
  pub symbol_id : pos c.symbol_id ≡ i.market_id
  pub price : c.price ≡ i.price
  pub quantity : pos c.quantity ≡ i.quantity
  pub side : SameSide i.side c.side
  pub order_type : SameOrderType i.order_type c.order_type
  pub time_in_force : SameTimeInForce i.time_in_force c.time_in_force
  pub received : c.received_sequence ≡ s

-- The tests in the order in which the code makes them, some of them twice.
place_tests :
    (r k u v o t : Bool)
    → ((r && (k && (u && true))) && (v && (r && (k && (o && (u && t))))))
      ≡ (r && (k && (u && (v && (o && t)))))
place_tests true true true true o t = refl
place_tests true true true false o t = refl
place_tests true true false v o t = refl
place_tests true false u v o t = refl
place_tests false k u v o t = refl

ends_true :
    (r k u v o m p q : Bool)
    → ((r && (k && (u && true))) && (v && (r && (k && (o && (u && (m && (p && (q && true)))))))))
      ≡ (r && (k && (u && (v && (o && (m && (p && q)))))))
ends_true r k u v o m p q =
    place_tests r k u v o (m && (p && (q && true)))
    ∙ ap (λ (b : Bool). r && (k && (u && (v && (o && (m && (p && b))))))) (and_true q)
  where
    and_true : (b : Bool) → (b && true) ≡ b
    and_true true = refl
    and_true false = refl

IsId-of : (n : ℕ) (cs : List ℕ) → n ≡ stable_string_id cs → IsId n
IsId-of n cs e = rw e (stable_string_id-IsId cs)

-- A place input is mapped exactly when its texts are not empty, its user is not negative, its order
-- and its quantity are positive, its market is a positive 32-bit number and its price is not
-- negative, nor zero for a limit order; then the result is one place command and the metadata of its
-- order. The command has the input's order, user, market, price and quantity, buys for long and sells
-- for short, is of the input's order type and time in force, and has the ids that its two texts hash
-- to, which are positive words. The metadata repeats the input and has the whole quantity and the
-- whole margin as remaining. The order, user and quantity are int64_t.
pub map_place_order_lem :
    (i : PlaceOrderInput) (s : ℕ)
    → pos_part i.order_id < 2 ^ 63
    → pos_part i.envelope.user_id < 2 ^ 63
    → pos_part i.quantity < 2 ^ 63
    → Agrees (is_place i) (IsPlaceOf i s) (map_place_order_to_core i s)
unfolding map_place_order_to_core
map_place_order_lem i s ho hu hq =
    subst (λ (b : Bool). Agrees b (IsPlaceOf i s) (map_place_order_to_core i s))
      (ends_true (filled i.envelope.request_id) (filled i.envelope.idempotency_key)
        (natural i.envelope.user_id) (filled i.reservation_id) (positive i.order_id)
        (is_symbol i.market_id) (is_price i.order_type i.price) (positive i.quantity))
      (Agrees-bind _ _ (λ _. Unit {0}) _ _ _ (validate_envelope_lem i.envelope hu)
        (λ _ _.
          Agrees-bind _ _ (λ _. Unit {0}) _ _ _ (require_non_empty_lem i.reservation_id _)
            (λ _ _. Agrees-bind _ _ _ _ _ _ (command_id_lem i.envelope.request_id) (λ id hid.
              Agrees-bind _ _ _ _ _ _ (client_order_id_lem i.envelope.idempotency_key) (λ client hc.
                Agrees-bind _ _ _ _ _ _ (to_core_order_id_lem i.order_id ho) (λ order eo.
                  Agrees-bind _ _ _ _ _ _ (to_core_user_id_lem i.envelope.user_id hu) (λ user eu.
                    Agrees-bind _ _ _ _ _ _ (to_core_symbol_id_lem i.market_id) (λ symbol es.
                      Agrees-bind _ _ _ _ _ _ (to_core_price_lem i.price i.order_type) (λ price ep.
                        Agrees-bind _ true _ _ _ _ (to_core_quantity_lem i.quantity hq) (λ q eq. (
                          refl,
                          record {
                            c = _;
                            kind = refl;
                            placed = (refl, refl);
                            metadata = _;
                            recorded = (refl, metadata_of-IsMetadataOf i _);
                            command_id = (hid, IsId-of id i.envelope.request_id hid);
                            client_order_id = (hc, IsId-of client i.envelope.idempotency_key hc);
                            order_id = eo;
                            user_id = eu;
                            symbol_id = es;
                            price = ep;
                            quantity = eq;
                            side = same_side i.side;
                            order_type = same_order_type i.order_type;
                            time_in_force = same_time_in_force i.time_in_force;
                            received = refl;
                          },
                        )))))))))))

-- What a cancel input has to meet.
abbrev pub is_cancel : CancelOrderInput → Bool
is_cancel i =
    filled i.envelope.request_id
    && (filled i.envelope.idempotency_key
        && (natural i.envelope.user_id && (is_symbol i.market_id && positive i.order_id)))

pub record IsCancelOf (i : CancelOrderInput) (s : ℕ) (m : MappedCommand) : Type 0 where
  pub c : CancelOrderCommand
  pub cancels : m.command ≡ cancel_command c
  pub unrecorded : m.metadata_to_record ≡ none
  pub command_id : (c.command_id ≡ stable_string_id i.envelope.request_id) × IsId c.command_id
  pub client_order_id :
      (c.client_order_id ≡ stable_string_id i.envelope.idempotency_key) × IsId c.client_order_id
  pub order_id : pos c.order_id ≡ i.order_id
  pub user_id : pos c.user_id ≡ i.envelope.user_id
  pub symbol_id : pos c.symbol_id ≡ i.market_id
  pub received : c.received_sequence ≡ s

cancel_tests :
    (r k u m o : Bool)
    → ((r && (k && (u && true))) && (r && (u && (m && (o && (k && true))))))
      ≡ (r && (k && (u && (m && o))))
cancel_tests true true true true true = refl
cancel_tests true true true true false = refl
cancel_tests true true true false o = refl
cancel_tests true true false m o = refl
cancel_tests true false u m o = refl
cancel_tests false k u m o = refl

-- A cancel input is mapped exactly when its texts are not empty, its user is not negative, its order
-- is positive and its market is a positive 32-bit number; then the command says what the input says,
-- and no metadata is recorded. The order and the user are int64_t.
pub map_cancel_order_lem :
    (i : CancelOrderInput) (s : ℕ)
    → pos_part i.order_id < 2 ^ 63
    → pos_part i.envelope.user_id < 2 ^ 63
    → Agrees (is_cancel i) (IsCancelOf i s) (map_cancel_order_to_core i s)
unfolding map_cancel_order_to_core
map_cancel_order_lem i s ho hu =
    subst (λ (b : Bool). Agrees b (IsCancelOf i s) (map_cancel_order_to_core i s))
      (cancel_tests (filled i.envelope.request_id) (filled i.envelope.idempotency_key)
        (natural i.envelope.user_id) (is_symbol i.market_id) (positive i.order_id))
      (Agrees-bind _ _ (λ _. Unit {0}) _ _ _ (validate_envelope_lem i.envelope hu)
        (λ _ _. Agrees-bind _ _ _ _ _ _ (command_id_lem i.envelope.request_id) (λ id hid.
          Agrees-bind _ _ _ _ _ _ (to_core_user_id_lem i.envelope.user_id hu) (λ user eu.
            Agrees-bind _ _ _ _ _ _ (to_core_symbol_id_lem i.market_id) (λ symbol es.
              Agrees-bind _ _ _ _ _ _ (to_core_order_id_lem i.order_id ho) (λ order eo.
                Agrees-bind _ true _ _ _ _ (client_order_id_lem i.envelope.idempotency_key)
                  (λ client hc. (
                    refl,
                    record {
                      c = _;
                      cancels = refl;
                      unrecorded = refl;
                      command_id = (hid, IsId-of id i.envelope.request_id hid);
                      client_order_id = (hc, IsId-of client i.envelope.idempotency_key hc);
                      order_id = eo;
                      user_id = eu;
                      symbol_id = es;
                      received = refl;
                    },
                  ))))))))
