-- ===== src/Adapter/Stores.antt =====
-- `OrderMetadataStore` and `MarketSequenceGenerator`. A market id that passed its check is positive,
-- and is a key of the map as the number that it is.
use exchange_engine.Base.{
  ℕ, ◌+◌, ◌%◌, ◌^◌, ◌<◌, ◌≡◌, refl, ◌∙◌, Bool, true, false, Option, none, some, [], arith, inl, inr,
  ◌==◌, if◌then◌else◌, length, ℤ, pos, pos_part, leb_ℤ, Map, lookup, insert, erase, contains,
  lookup-insert, lookup-erase, Bool-cases,
}
use exchange_engine.Core.Level.{is_nil}
use exchange_engine.Adapter.{
  OrderMetadata, Checked, done, throws, market_not_positive, sequence_not_positive,
}

abbrev pub OrderMetadataStore : Type 0
OrderMetadataStore = Map OrderMetadata

-- `emplace` keeps the entry that is there.
unfoldable pub insert_metadata : OrderMetadataStore → OrderMetadata → OrderMetadataStore × Bool
insert_metadata store metadata =
    if contains metadata.order_id store
    then (store, false)
    else (insert metadata.order_id metadata store, true)

abbrev pub find_metadata : OrderMetadataStore → ℕ → Option OrderMetadata
find_metadata store order_id = lookup order_id store

unfoldable pub erase_metadata : OrderMetadataStore → ℕ → OrderMetadataStore × Bool
erase_metadata store order_id = (erase order_id store, contains order_id store)

abbrev pub size : OrderMetadataStore → ℕ
size store = length store

abbrev pub is_empty : OrderMetadataStore → Bool
is_empty store = is_nil store

pub record MarketSequenceGenerator : Type 0 where
  pub first_sequence : ℕ
  pub next_by_market : Map ℕ

abbrev pub sequences_from : ℕ → MarketSequenceGenerator
sequences_from first = record {
  first_sequence = if first == 0 then 1 else first;
  next_by_market = [];
}

-- The value that `emplace` finds or puts in.
unfoldable pub next_of : MarketSequenceGenerator → ℕ → ℕ
next_of g market = elim (lookup market g.next_by_market) [
  | none ↦ g.first_sequence
  | some sequence ↦ sequence
]

unfoldable pub next : MarketSequenceGenerator → ℤ → Checked (ℕ × MarketSequenceGenerator)
next g market_id =
    if leb_ℤ market_id (pos 0)
    then throws market_not_positive
    else (let market = pos_part market_id in
        let sequence = next_of g market in
        done (
          sequence,
          record g { next_by_market = insert market ((sequence + 1) % 2 ^ 64) g.next_by_market },
        ))

unfoldable pub peek : MarketSequenceGenerator → ℤ → Checked ℕ
peek g market_id =
    if leb_ℤ market_id (pos 0)
    then throws market_not_positive
    else done (next_of g (pos_part market_id))

unfoldable pub restore : MarketSequenceGenerator → ℤ → ℕ → Checked MarketSequenceGenerator
restore g market_id next_sequence =
    if leb_ℤ market_id (pos 0)
    then throws market_not_positive
    else (if next_sequence == 0
        then throws sequence_not_positive
        else done (record g {
          next_by_market = insert (pos_part market_id) next_sequence g.next_by_market;
        }))

abbrev pub snapshot : MarketSequenceGenerator → Map ℕ
snapshot g = g.next_by_market

next_of-insert :
    (g : MarketSequenceGenerator) (market other sequence : ℕ)
    → next_of (record g { next_by_market = insert market sequence g.next_by_market }) other
      ≡ (if market == other then sequence else next_of g other)
unfolding next_of
next_of-insert g market other sequence = elim (Bool-cases (market == other)) [
  | inl e ↦ rw (lookup-insert market other sequence g.next_by_market, next_of, e) refl
  | inr e ↦ rw (lookup-insert market other sequence g.next_by_market, next_of, e) refl
]

-- A market's next sequence is the one that `peek` shows; afterwards `peek` shows its successor modulo
-- 2 ^ 64 for this market, and what it showed before for any other.
pub next-peek :
    (g : MarketSequenceGenerator) (market other : ℕ)
    → 0 < market
    → 0 < other
    → (g' : MarketSequenceGenerator) × (next g (pos market) ≡ done (next_of g market, g'))
      × (peek g (pos market) ≡ done (next_of g market))
      × (peek g' (pos other)
          ≡ done (if market == other then (next_of g market + 1) % 2 ^ 64 else next_of g other))
unfolding next peek
next-peek g market other h k =
    let mine : leb_ℤ (pos market) (pos 0) ≡ false = ground arith in
    let others : leb_ℤ (pos other) (pos 0) ≡ false = ground arith in
    let sequence = (next_of g market + 1) % 2 ^ 64 in
    (
      record g { next_by_market = insert market sequence g.next_by_market },
      rw mine refl,
      rw mine refl,
      rw (others, next_of-insert g market other sequence) refl,
    )

-- Metadata is stored under the id of its order unless that id is taken, which the result tells; what
-- is stored is found again until it is erased, and no other order is touched.
pub insert_metadata_lem :
    (store : OrderMetadataStore) (m : OrderMetadata) (other : ℕ)
    → let (stored, fresh) = insert_metadata store m in
      (fresh ≡ (if contains m.order_id store then false else true))
      × (find_metadata stored other ≡ (
          if fresh
          then (if m.order_id == other then some m else find_metadata store other)
          else find_metadata store other))
      × (find_metadata (erase_metadata stored m.order_id).0 other
          ≡ (if m.order_id == other then none else find_metadata store other))
unfolding insert_metadata erase_metadata
insert_metadata_lem store m other = elim (Bool-cases (contains m.order_id store)) [
  | inl taken ↦ rw taken (refl, refl, lookup-erase m.order_id other store)
  | inr free ↦ rw free (
    refl,
    lookup-insert m.order_id other m store,
    lookup-erase m.order_id other (insert m.order_id m store) ∙ after,
  )
]
  where
    after :
        (if m.order_id == other then none else lookup other (insert m.order_id m store))
        ≡ (if m.order_id == other then none else lookup other store)
    after = ground (arith, lookup-insert m.order_id other m store)
