-- ===== src/Runtime/InputParser/Kinds.antt =====
-- Which input a message becomes.
use exchange_engine.Base.{
  ◌≡◌, refl, ◌∙◌, ap, ◌⊎◌, false, inl, inr, List, ℕ, bytes, same_text, same_text_sound,
  same_text_refl, Bool-cases,
}
use exchange_engine.Base.Result.{Result, returns, raises, ◌>>=◌}
use exchange_engine.Protocol.Message.{ProtocolMessage}
use exchange_engine.Runtime.InputParser.Fields.{InputError, unsupported_type}
use exchange_engine.Runtime.InputParser.{
  ParsedEngineInputKind, place_order, cancel_order, liquidate_position, mark_price_updated,
  funding_rate_updated, funding_settlement_tick, ParsedEngineInputValue, place_order_input,
  cancel_order_input, liquidate_position_input, mark_price_updated_input,
  funding_rate_updated_input, funding_settlement_tick_input, ParsedEngineInput, parse_place_order,
  parse_cancel_order, parse_liquidate_position, parse_mark_price_updated,
  parse_funding_rate_updated, parse_funding_settlement_tick, parse_message, Kind, kind_of,
  is_unsupported, is_place_order, is_cancel_order, is_liquidate_position, is_mark_price_updated,
  is_funding_rate_updated, is_funding_settlement_tick,
}

-- The type of the messages of a kind.
abbrev pub message_type : ParsedEngineInputKind → List ℕ
message_type place_order = bytes "PlaceOrder"
message_type cancel_order = bytes "CancelOrder"
message_type liquidate_position = bytes "LiquidatePosition"
message_type mark_price_updated = bytes "MarkPriceUpdated"
message_type funding_rate_updated = bytes "FundingRateUpdated"
message_type funding_settlement_tick = bytes "FundingSettlementTick"

-- An input under the tag of a kind, or the error of its reader.
abbrev pub tagged {ℓ} :
    {A : Type ℓ}
    → ParsedEngineInputKind
    → (A → ParsedEngineInputValue)
    → Result InputError A
    → Result InputError ParsedEngineInput
tagged kind inject (returns input) = returns (record { kind = kind; value = inject input })
tagged kind inject (raises e) = raises e

-- What the reader of a kind makes of a message.
abbrev pub read_as : ParsedEngineInputKind → ProtocolMessage → Result InputError ParsedEngineInput
read_as place_order m = tagged place_order place_order_input (parse_place_order m)
read_as cancel_order m = tagged cancel_order cancel_order_input (parse_cancel_order m)
read_as liquidate_position m =
    tagged liquidate_position liquidate_position_input (parse_liquidate_position m)
read_as mark_price_updated m =
    tagged mark_price_updated mark_price_updated_input (parse_mark_price_updated m)
read_as funding_rate_updated m =
    tagged funding_rate_updated funding_rate_updated_input (parse_funding_rate_updated m)
read_as funding_settlement_tick m =
    tagged funding_settlement_tick funding_settlement_tick_input (parse_funding_settlement_tick m)

tagged-bind {ℓ} :
    {A : Type ℓ} (kind : ParsedEngineInputKind) (inject : A → ParsedEngineInputValue)
    (p : Result InputError A)
    → (p >>= λ input. returns (record { kind = kind; value = inject input })) ≡ tagged kind inject p
tagged-bind kind inject (returns input) = refl
tagged-bind kind inject (raises e) = refl

-- The branch that a kind is to take.
abbrev branch : ParsedEngineInputKind → Kind
branch place_order = is_place_order
branch cancel_order = is_cancel_order
branch liquidate_position = is_liquidate_position
branch mark_price_updated = is_mark_price_updated
branch funding_rate_updated = is_funding_rate_updated
branch funding_settlement_tick = is_funding_settlement_tick

abbrev read_by : ProtocolMessage → Kind → Result InputError ParsedEngineInput
read_by m is_place_order = read_as place_order m
read_by m is_cancel_order = read_as cancel_order m
read_by m is_liquidate_position = read_as liquidate_position m
read_by m is_mark_price_updated = read_as mark_price_updated m
read_by m is_funding_rate_updated = read_as funding_rate_updated m
read_by m is_funding_settlement_tick = read_as funding_settlement_tick m
read_by m is_unsupported = raises (unsupported_type m.kind)

read_by-branch :
    (m : ProtocolMessage) (k : ParsedEngineInputKind) → read_by m (branch k) ≡ read_as k m
read_by-branch m place_order = refl
read_by-branch m cancel_order = refl
read_by-branch m liquidate_position = refl
read_by-branch m mark_price_updated = refl
read_by-branch m funding_rate_updated = refl
read_by-branch m funding_settlement_tick = refl

by_kind :
    (m : ProtocolMessage) (k : Kind)
    → (elim k [
      | is_place_order ↦ do
        input ← parse_place_order m
        returns (record { kind = place_order; value = place_order_input input })
      | is_cancel_order ↦ do
        input ← parse_cancel_order m
        returns (record { kind = cancel_order; value = cancel_order_input input })
      | is_liquidate_position ↦ do
        input ← parse_liquidate_position m
        returns (record { kind = liquidate_position; value = liquidate_position_input input })
      | is_mark_price_updated ↦ do
        input ← parse_mark_price_updated m
        returns (record { kind = mark_price_updated; value = mark_price_updated_input input })
      | is_funding_rate_updated ↦ do
        input ← parse_funding_rate_updated m
        returns (record { kind = funding_rate_updated; value = funding_rate_updated_input input })
      | is_funding_settlement_tick ↦ do
        input ← parse_funding_settlement_tick m
        returns
            (record { kind = funding_settlement_tick; value = funding_settlement_tick_input input })
      | is_unsupported ↦ raises (unsupported_type m.kind)
    ])
      ≡ read_by m k
by_kind m is_place_order = tagged-bind place_order place_order_input (parse_place_order m)
by_kind m is_cancel_order = tagged-bind cancel_order cancel_order_input (parse_cancel_order m)
by_kind m is_liquidate_position =
    tagged-bind liquidate_position liquidate_position_input (parse_liquidate_position m)
by_kind m is_mark_price_updated =
    tagged-bind mark_price_updated mark_price_updated_input (parse_mark_price_updated m)
by_kind m is_funding_rate_updated =
    tagged-bind funding_rate_updated funding_rate_updated_input (parse_funding_rate_updated m)
by_kind m is_funding_settlement_tick =
    tagged-bind funding_settlement_tick funding_settlement_tick_input
      (parse_funding_settlement_tick m)
by_kind m is_unsupported = refl

parse_message-read_by : (m : ProtocolMessage) → parse_message m ≡ read_by m (kind_of m.kind)
unfolding parse_message
parse_message-read_by m = by_kind m (kind_of m.kind)

differs : (a b : List ℕ) → same_text a b ≡ false → ¬ (a ≡ b)
differs a b n e = cc (n, same_text_refl b, ap (λ t. same_text t b) e)

-- A type names a kind and takes its branch, or it names none.
named :
    (t : List ℕ)
    → ((k : ParsedEngineInputKind) × (t ≡ message_type k) × (kind_of t ≡ branch k))
      ⊎ (((k : ParsedEngineInputKind) → ¬ (t ≡ message_type k)) × (kind_of t ≡ is_unsupported))
named t = elim (Bool-cases (same_text t (bytes "PlaceOrder"))) [
  | inl e ↦ inl (place_order, same_text_sound t _ e, rw e refl)
  | inr e1 ↦ elim (Bool-cases (same_text t (bytes "CancelOrder"))) [
    | inl e ↦ inl (cancel_order, same_text_sound t _ e, rw (e1, e) refl)
    | inr e2 ↦ elim (Bool-cases (same_text t (bytes "LiquidatePosition"))) [
      | inl e ↦ inl (liquidate_position, same_text_sound t _ e, rw (e1, e2, e) refl)
      | inr e3 ↦ elim (Bool-cases (same_text t (bytes "MarkPriceUpdated"))) [
        | inl e ↦ inl (mark_price_updated, same_text_sound t _ e, rw (e1, e2, e3, e) refl)
        | inr e4 ↦ elim (Bool-cases (same_text t (bytes "FundingRateUpdated"))) [
          | inl e ↦ inl (funding_rate_updated, same_text_sound t _ e, rw (e1, e2, e3, e4, e) refl)
          | inr e5 ↦ elim (Bool-cases (same_text t (bytes "FundingSettlementTick"))) [
            | inl e ↦
                inl
                  (funding_settlement_tick, same_text_sound t _ e, rw (e1, e2, e3, e4, e5, e) refl)
            | inr e6 ↦ inr (
              λ k. elim k as (λ j. ¬ (t ≡ message_type j)) [
                | place_order ↦ differs t _ e1
                | cancel_order ↦ differs t _ e2
                | liquidate_position ↦ differs t _ e3
                | mark_price_updated ↦ differs t _ e4
                | funding_rate_updated ↦ differs t _ e5
                | funding_settlement_tick ↦ differs t _ e6
              ],
              rw (e1, e2, e3, e4, e5, e6) refl,
            )
          ]
        ]
      ]
    ]
  ]
]

-- A message whose type names one of the six kinds is read by the reader of that kind, and an input that
-- it returns carries the tag and the value of that kind; a message of any other type is refused as
-- unsupported.
pub parse_message-message_type :
    (m : ProtocolMessage)
    → ((k : ParsedEngineInputKind) × (m.kind ≡ message_type k) × (parse_message m ≡ read_as k m))
      ⊎ (((k : ParsedEngineInputKind) → ¬ (m.kind ≡ message_type k))
          × (parse_message m ≡ raises (unsupported_type m.kind)))
parse_message-message_type m = elim (named m.kind) [
  | inl (k, says, takes) ↦
      inl (k, says, parse_message-read_by m ∙ ap (read_by m) takes ∙ read_by-branch m k)
  | inr (unnamed, takes) ↦ inr (unnamed, parse_message-read_by m ∙ ap (read_by m) takes)
]
