-- ===== src/Adapter/Commands/Checks.antt =====
-- When each check of the adapter passes, and what it returns then.
use exchange_engine.Base.{
  ℕ, ◌-◌, ◌%◌, ◌^◌, ◌<◌, ◌≡◌, refl, ap, Bool, true, false, not, ◌&&◌, ◌||◌, List, [], ◌∷◌, arith,
  ltb, ◌==◌, if◌then◌else◌, ℤ, pos, negsuc, pos_part, ltb_ℤ, leb_ℤ, Bool-cases, inl, inr,
}
use exchange_engine.Core.Level.{is_nil}
use exchange_engine.Adapter.{
  Checked, done, throws, ◌>>=◌, AdapterError, AdapterOrderType, limit_order, market_order,
  CommandEnvelope, stable_string_id, hash_bytes, hash_byte, require_non_empty, validate_envelope,
  command_id_from_request_id, client_order_id_from_idempotency_key, to_core_order_id,
  to_core_user_id, to_core_symbol_id, to_core_price, to_core_quantity,
}

-- The computation passes exactly when the test says so, and then with a result of the kind.
abbrev pub Agrees {ℓ} : {A : Type ℓ} → Bool → (A → Type 0) → Checked A → Type 0
Agrees test P (done a) = (test ≡ true) × P a
Agrees test P (throws e) = test ≡ false

pub Agrees-bind {ℓ} :
    {A : Type ℓ} {B : Type ℓ} (a b : Bool) (Q : A → Type 0) (P : B → Type 0) (r : Checked A)
    (f : A → Checked B)
    → Agrees a Q r
    → ((x : A) → Q x → Agrees b P (f x))
    → Agrees (a && b) P (r >>= f)
Agrees-bind a b Q P (done x) f h k = rw (h.0) (k x h.1)
Agrees-bind a b Q P (throws e) f h k = rw h refl

abbrev pub filled : List ℕ → Bool
filled cs = not (is_nil cs)

pub require_non_empty_lem :
    (cs : List ℕ) (e : AdapterError) → Agrees (filled cs) (λ _. Unit {0}) (require_non_empty cs e)
unfolding require_non_empty
require_non_empty_lem [] e = refl
require_non_empty_lem (c ∷ cs) e = (refl, tt)

-- An identifier made from a text: a positive word.
abbrev pub IsId : ℕ → Type 0
IsId n = (0 < n) × (n < 2 ^ 64)

hash_bytes_word : (h : ℕ) (cs : List ℕ) → h < 2 ^ 64 → hash_bytes h cs < 2 ^ 64
unfolding hash_bytes
hash_bytes_word h [] k = k
hash_bytes_word h (c ∷ cs) k = hash_bytes_word (hash_byte h c) cs (omega arith)

pub stable_string_id-IsId : (cs : List ℕ) → IsId (stable_string_id cs)
unfolding stable_string_id
stable_string_id-IsId cs = elim (Bool-cases (hash_bytes 14695981039346656037 cs == 0)) [
  | inl e ↦ rw e (omega arith, omega arith)
  | inr e ↦ rw e (ground arith, hash_bytes_word 14695981039346656037 cs (omega arith))
]

pub command_id_lem :
    (cs : List ℕ)
    → Agrees (filled cs) (λ n. n ≡ stable_string_id cs) (command_id_from_request_id cs)
unfolding command_id_from_request_id require_non_empty
command_id_lem [] = refl
command_id_lem (c ∷ cs) = (refl, refl)

pub client_order_id_lem :
    (cs : List ℕ)
    → Agrees (filled cs) (λ n. n ≡ stable_string_id cs) (client_order_id_from_idempotency_key cs)
unfolding client_order_id_from_idempotency_key require_non_empty
client_order_id_lem [] = refl
client_order_id_lem (c ∷ cs) = (refl, refl)

abbrev pub positive : ℤ → Bool
positive z = ltb_ℤ (pos 0) z

abbrev pub natural : ℤ → Bool
natural z = leb_ℤ (pos 0) z

Agrees-if {ℓ} :
    {A : Type ℓ} (bad test : Bool) (e : AdapterError) (v : A) (P : A → Type 0)
    → bad ≡ not test
    → (test ≡ true → P v)
    → Agrees test P (if bad then throws e else done v)
Agrees-if bad true e v P h k = rw h (refl, k refl)
Agrees-if bad false e v P h k = rw h refl

at_most_zero : (z : ℤ) → leb_ℤ z (pos 0) ≡ not (positive z)
at_most_zero (pos n) = ground arith
at_most_zero (negsuc n) = ground arith

exact : (z : ℤ) → pos_part z < 2 ^ 63 → natural z ≡ true → pos (pos_part z % 2 ^ 64) ≡ z
exact (pos n) h p = ap pos (omega arith)
exact (negsuc n) h p = absurd (ground arith)

natural_of_positive : (z : ℤ) → positive z ≡ true → natural z ≡ true
natural_of_positive (pos n) h = ground arith
natural_of_positive (negsuc n) h = ground arith

pub to_core_order_id_lem :
    (id : ℤ) → pos_part id < 2 ^ 63 → Agrees (positive id) (λ n. pos n ≡ id) (to_core_order_id id)
unfolding to_core_order_id
to_core_order_id_lem id h =
    Agrees-if (leb_ℤ id (pos 0)) (positive id) _ _ _ (at_most_zero id)
      (λ p. exact id h (natural_of_positive id p))

pub to_core_quantity_lem :
    (q : ℤ) → pos_part q < 2 ^ 63 → Agrees (positive q) (λ n. pos n ≡ q) (to_core_quantity q)
unfolding to_core_quantity
to_core_quantity_lem q h =
    Agrees-if (leb_ℤ q (pos 0)) (positive q) _ _ _ (at_most_zero q)
      (λ p. exact q h (natural_of_positive q p))

outside_user :
    (u : ℤ) → (ltb_ℤ u (pos 0) || ltb (2 ^ 64 - 1) (pos_part u % 2 ^ 64)) ≡ not (natural u)
outside_user (pos n) = ground arith
outside_user (negsuc n) = ground arith

pub to_core_user_id_lem :
    (u : ℤ) → pos_part u < 2 ^ 63 → Agrees (natural u) (λ n. pos n ≡ u) (to_core_user_id u)
unfolding to_core_user_id
to_core_user_id_lem u h =
    Agrees-if (ltb_ℤ u (pos 0) || ltb (2 ^ 64 - 1) (pos_part u % 2 ^ 64)) (natural u) _ _ _
      (outside_user u) (exact u h)

abbrev pub is_symbol : ℤ → Bool
is_symbol m = positive m && leb_ℤ m (pos (2 ^ 32 - 1))

outside_symbol : (m : ℤ) → (leb_ℤ m (pos 0) || ltb_ℤ (pos (2 ^ 32 - 1)) m) ≡ not (is_symbol m)
outside_symbol (pos n) = ground arith
outside_symbol (negsuc n) = ground arith

exact_symbol : (m : ℤ) → is_symbol m ≡ true → pos (pos_part m % 2 ^ 32) ≡ m
exact_symbol (pos n) h = ap pos (ground arith)
exact_symbol (negsuc n) h = absurd (ground arith)

pub to_core_symbol_id_lem : (m : ℤ) → Agrees (is_symbol m) (λ n. pos n ≡ m) (to_core_symbol_id m)
unfolding to_core_symbol_id
to_core_symbol_id_lem m =
    Agrees-if (leb_ℤ m (pos 0) || ltb_ℤ (pos (2 ^ 32 - 1)) m) (is_symbol m) _ _ _ (outside_symbol m)
      (exact_symbol m)

abbrev pub is_price : AdapterOrderType → ℤ → Bool
is_price limit_order p = positive p
is_price market_order p = natural p

pub to_core_price_lem :
    (p : ℤ) (kind : AdapterOrderType)
    → Agrees (is_price kind p) (λ price. price ≡ p) (to_core_price p kind)
unfolding to_core_price
to_core_price_lem (pos n) limit_order = ground arith
to_core_price_lem (negsuc n) limit_order = ground arith
to_core_price_lem (pos n) market_order = ground arith
to_core_price_lem (negsuc n) market_order = ground arith

abbrev pub is_envelope : CommandEnvelope → Bool
is_envelope e = filled e.request_id && (filled e.idempotency_key && (natural e.user_id && true))

pub validate_envelope_lem :
    (e : CommandEnvelope)
    → pos_part e.user_id < 2 ^ 63
    → Agrees (is_envelope e) (λ _. Unit {0}) (validate_envelope e)
unfolding validate_envelope
validate_envelope_lem e h =
    Agrees-bind _ _ (λ _. Unit {0}) (λ _. Unit {0}) _ _ (require_non_empty_lem e.request_id _)
      (λ r _.
        Agrees-bind _ _ (λ _. Unit {0}) (λ _. Unit {0}) _ _
          (require_non_empty_lem e.idempotency_key _)
          (λ k _.
            Agrees-bind _ true (λ n. pos n ≡ e.user_id) (λ _. Unit {0}) _ _
              (to_core_user_id_lem e.user_id h) (λ u _. (refl, tt))))
