-- ===== src/Protocol/Parser/Total.antt =====
-- The fuel of the parser of messages.
use exchange_engine.Base.{
  subst, ℕ, zero, suc, ◌+◌, ◌*◌, ◌<◌, ◌≤◌, ◌≢◌, Option, none, some, List, [], ◌∷◌, arith, length,
}
use exchange_engine.Protocol.Json.{
  JsonValue, Items, Members, object, array, no_members, no_items, push_item, emplace,
}
use exchange_engine.Protocol.Parser.{
  Opening, brace, bracket, quotes, letter_t, letter_f, letter_n, numeric, other, opening,
  parse_scalar, parse_key, emplaced, parse_value, parse_at, parse_object, parse_members,
  parse_array, parse_elements, json_fuel, parse_json,
}
use exchange_engine.Protocol.Parser.Lexer.{
  Parsing, ok, fail, out_of_fuel, ◌>>=◌, skip_whitespace, consume, expect, trailing_content,
  duplicate_key,
}
use exchange_engine.Protocol.Parser.Shorter.{
  ReadsPart, Ends, bind_leaves, bind_text, bind-Ends, option_leaves, leaves_more, skip_leaves,
  consume_leaves, expect_leaves,
}
use exchange_engine.Protocol.Parser.Scalars.{scalar_leaves, key_leaves}

emplaced-Ends : (key : List ℕ) (v : JsonValue) (m : Members) → Ends (emplaced key v m)
emplaced-Ends key v m = go (emplace key v m)
  where
    go : (o : Option Members) → Ends (elim o [ none ↦ fail duplicate_key | some n ↦ ok n ])
    go none = tt
    go (some n) = tt

-- The closing bracket, or a comma and the rest of the loop.
close_or_go_on :
    (n close : ℕ) (behind : List ℕ) (v : JsonValue) (more : List ℕ → Parsing (JsonValue × List ℕ))
    → length behind ≤ n
    → ((rest : List ℕ) → length rest < length behind → ReadsPart n (more rest))
    → ReadsPart n (elim (consume close (skip_whitespace behind)) [
      | some rest ↦ ok (v, rest)
      | none ↦ expect b',' (skip_whitespace behind) >>= λ rest. more rest
    ])
close_or_go_on n close behind v more le go_on =
    let skipped = skip_leaves behind in
    option_leaves (length (skip_whitespace behind)) n (consume close (skip_whitespace behind)) _ _
      (consume_leaves close (skip_whitespace behind))
      (bind_text (length (skip_whitespace behind)) n (expect b',' (skip_whitespace behind)) more
        (expect_leaves b',' (skip_whitespace behind)) (λ rest less. go_on rest (omega arith)))
      (λ rest less. omega arith)

-- Whatever the byte opens.
opened_leaves :
    (fuel c : ℕ) (cs : List ℕ)
    → ReadsPart (length cs) (parse_object fuel cs)
    → ReadsPart (length cs) (parse_array fuel cs)
    → (o : Opening)
    → ReadsPart (suc (length cs)) (elim o [
      | brace ↦ parse_object fuel cs
      | bracket ↦ parse_array fuel cs
      | o ↦ parse_scalar o (c ∷ cs)
    ])
opened_leaves fuel c cs h k brace =
    leaves_more (length cs) (suc (length cs)) (parse_object fuel cs) h (omega arith)
opened_leaves fuel c cs h k bracket =
    leaves_more (length cs) (suc (length cs)) (parse_array fuel cs) k (omega arith)
opened_leaves fuel c cs h k quotes = scalar_leaves quotes (c ∷ cs)
opened_leaves fuel c cs h k letter_t = scalar_leaves letter_t (c ∷ cs)
opened_leaves fuel c cs h k letter_f = scalar_leaves letter_f (c ∷ cs)
opened_leaves fuel c cs h k letter_n = scalar_leaves letter_n (c ∷ cs)
opened_leaves fuel c cs h k numeric = scalar_leaves numeric (c ∷ cs)
opened_leaves fuel c cs h k other = scalar_leaves other (c ∷ cs)

mutual
  unfolding parse_value

  value_leaves :
      (fuel : ℕ) (text : List ℕ)
      → 4 * length text + 2 ≤ fuel
      → ReadsPart (length text) (parse_value fuel text)
  value_leaves zero text h = absurd (omega arith)
  value_leaves (suc fuel) text h =
      let skipped = skip_leaves text in
      leaves_more (length (skip_whitespace text)) (length text)
        (parse_at fuel (skip_whitespace text)) (at_leaves fuel (skip_whitespace text) (omega arith))
        skipped

  at_leaves :
      (fuel : ℕ) (text : List ℕ)
      → 4 * length text + 1 ≤ fuel
      → ReadsPart (length text) (parse_at fuel text)
  at_leaves zero text h = absurd (omega arith)
  at_leaves (suc fuel) [] h = tt
  at_leaves (suc fuel) (c ∷ cs) h =
      opened_leaves fuel c cs (object_leaves fuel cs (omega arith))
        (array_leaves fuel cs (omega arith)) (opening c)

  object_leaves :
      (fuel : ℕ) (text : List ℕ)
      → 4 * length text + 4 ≤ fuel
      → ReadsPart (length text) (parse_object fuel text)
  object_leaves zero text h = absurd (omega arith)
  object_leaves (suc fuel) text h =
      let skipped = skip_leaves text in
      option_leaves (length (skip_whitespace text)) (length text)
        (consume b'}' (skip_whitespace text)) _ _ (consume_leaves b'}' (skip_whitespace text))
        (leaves_more (length (skip_whitespace text)) (length text)
          (parse_members fuel no_members (skip_whitespace text))
          (members_leave fuel no_members (skip_whitespace text) (omega arith)) skipped)
        (λ rest less. omega arith)

  members_leave :
      (fuel : ℕ) (m : Members) (text : List ℕ)
      → 4 * length text + 3 ≤ fuel
      → ReadsPart (length text) (parse_members fuel m text)
  members_leave zero m text h = absurd (omega arith)
  members_leave (suc fuel) m text h =
      bind_leaves (length text) (length text) (parse_key text) _ (key_leaves text)
        (λ key after less.
          bind_leaves (length after) (length text) (parse_value fuel after) _
            (value_leaves fuel after (omega arith))
            (λ v behind less'.
              bind-Ends (length text) (emplaced key v m) _ (emplaced-Ends key v m) (λ m'.
                close_or_go_on (length text) b'}' behind (object m') (parse_members fuel m')
                  (omega arith)
                  (λ rest less''.
                    leaves_more (length rest) (length text) (parse_members fuel m' rest)
                      (members_leave fuel m' rest (omega arith)) (omega arith)))))

  array_leaves :
      (fuel : ℕ) (text : List ℕ)
      → 4 * length text + 4 ≤ fuel
      → ReadsPart (length text) (parse_array fuel text)
  array_leaves zero text h = absurd (omega arith)
  array_leaves (suc fuel) text h =
      let skipped = skip_leaves text in
      option_leaves (length (skip_whitespace text)) (length text)
        (consume b']' (skip_whitespace text)) _ _ (consume_leaves b']' (skip_whitespace text))
        (leaves_more (length (skip_whitespace text)) (length text)
          (parse_elements fuel no_items (skip_whitespace text))
          (elements_leave fuel no_items (skip_whitespace text) (omega arith)) skipped)
        (λ rest less. omega arith)

  elements_leave :
      (fuel : ℕ) (xs : Items) (text : List ℕ)
      → 4 * length text + 3 ≤ fuel
      → ReadsPart (length text) (parse_elements fuel xs text)
  elements_leave zero xs text h = absurd (omega arith)
  elements_leave (suc fuel) xs text h =
      bind_leaves (length text) (length text) (parse_value fuel text) _
        (value_leaves fuel text (omega arith))
        (λ v behind less.
          close_or_go_on (length text) b']' behind (array (push_item v xs))
            (parse_elements fuel (push_item v xs)) (omega arith)
            (λ rest less'.
              leaves_more (length rest) (length text) (parse_elements fuel (push_item v xs) rest)
                (elements_leave fuel (push_item v xs) rest (omega arith)) (omega arith)))

-- What stands behind the value ends the parse one way or the other.
behind-Ends :
    (p : Parsing (JsonValue × List ℕ)) (n : ℕ)
    → ReadsPart n p
    → Ends (
        p >>= λ (v, rest). elim (skip_whitespace rest) [
          | [] ↦ ok v
          | c ∷ cs ↦ fail trailing_content
        ])
behind-Ends (ok (v, rest)) n h = go (skip_whitespace rest)
  where
    go : (text : List ℕ) → Ends (elim text [ [] ↦ ok v | c ∷ cs ↦ fail trailing_content ])
    go [] = tt
    go (c ∷ cs) = tt
behind-Ends (fail e) n h = tt
behind-Ends out_of_fuel n h = h

-- For every text the parser ends, with a value or with an error: its fuel, four calls for each byte
-- and four more, is never used up.
pub parse_json-ends : (text : List ℕ) → parse_json text ≢ out_of_fuel
unfolding parse_json
parse_json-ends text e = subst Ends e (
    behind-Ends (parse_value (json_fuel text) text) (length text)
      (value_leaves (json_fuel text) text (omega arith)))
