-- ===== src/Runtime/InputParser/Inputs.antt =====
-- The inputs that the parser returns.
use exchange_engine.Base.{
  ℕ, ◌^◌, ◌≡◌, refl, subst, Bool, true, false, not, List, bytes, arith, ℤ, pos, ◌<ℤ◌, leb_ℤ,
}
use exchange_engine.Base.Result.{Result, returns, ◌>>=◌, raise_if}
use exchange_engine.Core.Level.{is_nil}
use exchange_engine.Protocol.Json.{JsonValue, is_object}
use exchange_engine.Protocol.Message.{ProtocolMessage}
use exchange_engine.Adapter.{CommandEnvelope, PlaceOrderInput}
use exchange_engine.Adapter.Inputs.{FundingRateUpdatedInput}
use exchange_engine.Runtime.InputParser.Fields.{
  InputError, require_field, require_string, require_payload_string, optional_payload_string,
  require_i64, require_i32, require_bool, require_envelope, parse_side, parse_order_type,
  optional_time_in_force, envelope_not_object, rate_scale_not_positive, interval_not_rising,
}
use exchange_engine.Runtime.InputParser.{expect_type, parse_place_order, parse_funding_rate_updated}
use exchange_engine.Runtime.InputParser.Ranges.{
  InRange, OnReturn, bind_return, bind_with, i64_range, i32_range, string_filled,
}

pub raise_if-false {ℓ} : {E : Type ℓ} (b : Bool) (e : E) → OnReturn (λ u. b ≡ false) (raise_if b e)
raise_if-false true e = tt
raise_if-false false e = refl

abbrev pub Filled : List ℕ → Type 0
Filled s = is_nil s ≡ false

abbrev pub FitsEnvelope : CommandEnvelope → Type 0
FitsEnvelope e =
    Filled e.request_id
    × Filled e.idempotency_key
    × InRange (2 ^ 63) e.user_id
    × InRange (2 ^ 31) e.reply_partition

-- The fields, one after the other.
i64_then :
    {A : Type 0} (Q : A → Type 0) (v : JsonValue) (name path : List ℕ) (f : ℤ → Result InputError A)
    → ((n : ℤ) → InRange (2 ^ 63) n → OnReturn Q (f n))
    → OnReturn Q (require_i64 v name path >>= f)
i64_then Q v name path f k =
    bind_with (InRange (2 ^ 63)) Q (require_i64 v name path) f (i64_range v name path) k

i32_then :
    {A : Type 0} (Q : A → Type 0) (v : JsonValue) (name path : List ℕ) (f : ℤ → Result InputError A)
    → ((n : ℤ) → InRange (2 ^ 31) n → OnReturn Q (f n))
    → OnReturn Q (require_i32 v name path >>= f)
i32_then Q v name path f k =
    bind_with (InRange (2 ^ 31)) Q (require_i32 v name path) f (i32_range v name path) k

string_then :
    {A : Type 0} (Q : A → Type 0) (v : JsonValue) (name path : List ℕ)
    (f : List ℕ → Result InputError A)
    → ((s : List ℕ) → Filled s → OnReturn Q (f s))
    → OnReturn Q (require_string v name path >>= f)
string_then Q v name path f k =
    bind_with Filled Q (require_string v name path) f (string_filled v name path) k

payload_string_then :
    {A : Type 0} (Q : A → Type 0) (v : JsonValue) (name : List ℕ) (f : List ℕ → Result InputError A)
    → ((s : List ℕ) → Filled s → OnReturn Q (f s))
    → OnReturn Q (require_payload_string v name >>= f)
unfolding require_payload_string
payload_string_then Q v name f k = string_then Q v name (bytes "payload") f k

envelope_fits : (payload : JsonValue) → OnReturn FitsEnvelope (require_envelope payload)
unfolding require_envelope
envelope_fits payload =
    bind_return FitsEnvelope (require_field payload (bytes "envelope") (bytes "payload")) _ (λ v.
      bind_return FitsEnvelope (raise_if (not (is_object v)) envelope_not_object) _ (λ u.
        string_then FitsEnvelope v _ _ _ (λ r hr. string_then FitsEnvelope v _ _ _ (λ k hk.
          i64_then FitsEnvelope v _ _ _
            (λ id hid. i32_then FitsEnvelope v _ _ _ (λ p hp. (hr, hk, hid, hp)))))))

-- What the fields of a place-order input fit into.
abbrev pub FitsPlaceOrder : PlaceOrderInput → Type 0
FitsPlaceOrder i =
    FitsEnvelope i.envelope
    × Filled i.reservation_id
    × Filled i.market_name
    × Filled i.margin_asset
    × InRange (2 ^ 63) i.order_id
    × InRange (2 ^ 63) i.market_id
    × InRange (2 ^ 63) i.price
    × InRange (2 ^ 63) i.quantity
    × InRange (2 ^ 63) i.reserved_margin_amount
    × InRange (2 ^ 31) i.leverage

place_order_fits : (message : ProtocolMessage) → OnReturn FitsPlaceOrder (parse_place_order message)
unfolding parse_place_order
place_order_fits message =
    let payload = message.payload in
    bind_return FitsPlaceOrder (expect_type message (bytes "PlaceOrder")) _ (λ u.
      bind_return FitsPlaceOrder (optional_payload_string payload (bytes "input_id")) _ (λ i.
        bind_with FitsEnvelope FitsPlaceOrder (require_envelope payload) _ (envelope_fits payload)
          (λ e h_e. i64_then FitsPlaceOrder payload _ _ _ (λ o h_o.
            payload_string_then FitsPlaceOrder payload _ _ (λ r h_r.
              i64_then FitsPlaceOrder payload _ _ _ (λ m h_m.
                payload_string_then FitsPlaceOrder payload _ _ (λ n h_n.
                  payload_string_then FitsPlaceOrder payload _ _ (λ st h_st.
                    bind_return FitsPlaceOrder (parse_side st) _ (λ side.
                      payload_string_then FitsPlaceOrder payload _ _ (λ ot h_ot.
                        bind_return FitsPlaceOrder (parse_order_type ot) _ (λ kind.
                          bind_return FitsPlaceOrder (optional_time_in_force payload) _ (λ t.
                            i64_then FitsPlaceOrder payload _ _ _ (λ p h_p.
                              i64_then FitsPlaceOrder payload _ _ _ (λ q h_q.
                                bind_return FitsPlaceOrder
                                  (require_bool payload (bytes "reduce_only") (bytes "payload")) _
                                  (λ ro. payload_string_then FitsPlaceOrder payload _ _ (λ a h_a.
                                    i64_then FitsPlaceOrder payload _ _ _ (λ rm h_rm.
                                      i32_then FitsPlaceOrder payload _ _ _ (λ l h_l. (
                                        h_e, h_r, h_n, h_a, h_o, h_m, h_p, h_q, h_rm, h_l,
                                      )))))))))))))))))))

-- A place-order input that the parser returns has a request id, an idempotency key, a reservation
-- id, a market name and a margin asset that are not empty, its ids, price, quantity and reserved
-- margin are 64-bit integers, and its reply partition and leverage 32-bit integers.
pub parse_place_order_fits :
    (message : ProtocolMessage) (i : PlaceOrderInput)
    → parse_place_order message ≡ returns i
    → FitsPlaceOrder i
parse_place_order_fits message i e = subst (OnReturn FitsPlaceOrder) e (place_order_fits message)

abbrev pub FundingInOrder : FundingRateUpdatedInput → Type 0
FundingInOrder i = (pos 0 <ℤ i.rate_scale) × (i.interval_start_ms <ℤ i.interval_end_ms)

after_ℤ : (a b : ℤ) → leb_ℤ a b ≡ false → b <ℤ a
after_ℤ a b h = ground arith

funding_in_order :
    (message : ProtocolMessage) → OnReturn FundingInOrder (parse_funding_rate_updated message)
unfolding parse_funding_rate_updated
funding_in_order message =
    let payload = message.payload in
    bind_return FundingInOrder (expect_type message (bytes "FundingRateUpdated")) _ (λ u.
      bind_return FundingInOrder (optional_payload_string payload (bytes "input_id")) _ (λ i.
        i64_then FundingInOrder payload _ _ _ (λ m h_m.
          payload_string_then FundingInOrder payload _ _ (λ f h_f.
            i64_then FundingInOrder payload _ _ _ (λ r h_r.
              i64_then FundingInOrder payload _ _ _ (λ sc h_sc.
                i64_then FundingInOrder payload _ _ _ (λ b h_b.
                  i64_then FundingInOrder payload _ _ _ (λ en h_en.
                    i64_then FundingInOrder payload _ _ _ (λ t h_t.
                      bind_with (λ u. leb_ℤ sc (pos 0) ≡ false) FundingInOrder
                        (raise_if (leb_ℤ sc (pos 0)) rate_scale_not_positive) _
                        (raise_if-false (leb_ℤ sc (pos 0)) rate_scale_not_positive)
                        (λ w h_w.
                          bind_with (λ u. leb_ℤ en b ≡ false) FundingInOrder
                            (raise_if (leb_ℤ en b) interval_not_rising) _
                            (raise_if-false (leb_ℤ en b) interval_not_rising)
                            (λ x h_x. (after_ℤ sc (pos 0) h_w, after_ℤ en b h_x))))))))))))

-- A funding-rate input that the parser returns has a positive rate scale and an interval that ends
-- after its start.
pub parse_funding_rate_updated_in_order :
    (message : ProtocolMessage) (i : FundingRateUpdatedInput)
    → parse_funding_rate_updated message ≡ returns i
    → FundingInOrder i
parse_funding_rate_updated_in_order message i e =
    subst (OnReturn FundingInOrder) e (funding_in_order message)
