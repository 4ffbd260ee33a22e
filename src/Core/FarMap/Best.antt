-- ===== src/Core/FarMap/Best.antt =====
-- `best_level` against the prices whose levels hold orders.
use mathlib.Core.List.{reverse, reverse-cons}
use exchange_engine.Base.{
  ◌≡◌, refl, Bool, true, false, not, ◌&&◌, Option, none, some, [], ◌∷◌, ◌++◌, arith, inl, inr,
  Bool-cases, if◌then◌else◌, ltb_ℤ, eqb_ℤ,
}
use exchange_engine.Core.FixedPoint.{Price}
use exchange_engine.Core.Types.{Side, buy, sell, is_buy}
use exchange_engine.Core.Level.{PriceLevel, empty}
use exchange_engine.Core.FarMap.{Entries, FarPriceMap, first_filled, best_level}
use exchange_engine.Core.FarMap.Sorted.{IsAbove, IsSorted}

-- Whether the level of a price holds orders.
pub filled_at : Price → Entries → Bool
filled_at q [] = false
filled_at q ((k, v) ∷ m) = if eqb_ℤ k q then not (empty v) else filled_at q m

filled_above : (p q : Price) (m : Entries) → IsAbove p m → filled_at q m ≡ true → ltb_ℤ p q ≡ true
unfolding filled_at
filled_above p q [] a h = cc
filled_above p q ((k, v) ∷ m) a h = elim (Bool-cases (eqb_ℤ k q)) [
  | inl e ↦ ground (arith, a.0)
  | inr e ↦ filled_above p q m a.1 (rw e at h)
]

-- The result is a filled price and `q` is not a filled price below it; none if `q` is not filled.
pub Least : Entries → Price → Option Price → Type 0
Least m q none = filled_at q m ≡ false
Least m q (some k) = (filled_at k m ≡ true) × ((filled_at q m && ltb_ℤ q k) ≡ false)

pub Greatest : Entries → Price → Option Price → Type 0
Greatest m q none = filled_at q m ≡ false
Greatest m q (some k) = (filled_at k m ≡ true) × ((filled_at q m && ltb_ℤ k q) ≡ false)

-- An empty level in front changes nothing, below or above the others.
Least-cons_empty :
    (k q : Price) (v : PriceLevel) (m : Entries) (r : Option Price)
    → empty v ≡ true
    → IsAbove k m
    → Least m q r
    → Least ((k, v) ∷ m) q r
unfolding Least filled_at
Least-cons_empty k q v m none e a h = ground (arith, e, h)
Least-cons_empty k q v m (some j) e a h =
    (ground (arith, filled_above k j m a h.0, h.0), ground (arith, e, h.1))

Least-cons_filled :
    (k q : Price) (v : PriceLevel) (m : Entries)
    → empty v ≡ false
    → IsAbove k m
    → Least ((k, v) ∷ m) q (some k)
unfolding Least filled_at
Least-cons_filled k q v m e a = elim (Bool-cases (filled_at q m)) [
  | inl there ↦ (ground (arith, e), ground (arith, e, there, filled_above k q m a there))
  | inr gone ↦ (ground (arith, e), ground (arith, e, gone))
]

first_filled-Least : (m : Entries) (q : Price) → IsSorted m → Least m q (first_filled m)
unfolding first_filled filled_at Least
first_filled-Least [] q s = refl
first_filled-Least ((k, v) ∷ m) q s = elim (Bool-cases (empty v)) [
  | inl e ↦ rw e (Least-cons_empty k q v m (first_filled m) e s.0 (first_filled-Least m q s.1))
  | inr e ↦ rw e (Least-cons_filled k q v m e s.0)
]

-- The first filled price of two lists, one behind the other.
abbrev otherwise : Option Price → Option Price → Option Price
otherwise none r = r
otherwise (some k) r = some k

first_filled-append :
    (xs ys : Entries) → first_filled (xs ++ ys) ≡ otherwise (first_filled xs) (first_filled ys)
unfolding first_filled
first_filled-append [] ys = refl
first_filled-append ((k, v) ∷ xs) ys = elim (Bool-cases (empty v)) [
  | inl e ↦ rw e (first_filled-append xs ys)
  | inr e ↦ rw e refl
]

Greatest-cons :
    (k q : Price) (v : PriceLevel) (m : Entries) (r : Option Price)
    → IsAbove k m
    → Greatest m q r
    → Greatest ((k, v) ∷ m) q (otherwise r (if empty v then none else some k))
unfolding Greatest filled_at
Greatest-cons k q v m none a h = elim (Bool-cases (empty v)) [
  | inl e ↦ rw e (ground (arith, e, h))
  | inr e ↦ rw e (ground (arith, e), ground (arith, e, h))
]
Greatest-cons k q v m (some j) a h =
    let above = filled_above k j m a h.0 in (ground (arith, above, h.0), ground (arith, above, h.1))

reverse-Greatest : (m : Entries) (q : Price) → IsSorted m → Greatest m q (first_filled (reverse m))
unfolding first_filled filled_at Greatest
reverse-Greatest [] q s = refl
reverse-Greatest ((k, v) ∷ m) q s =
    rw (reverse-cons (k, v) m, first_filled-append (reverse m) ((k, v) ∷ []))
      (Greatest-cons k q v m (first_filled (reverse m)) s.0 (reverse-Greatest m q s.1))

-- The best price of a side: the greatest on the bids, the least on the asks.
abbrev pub BestPrice : Side → Entries → Price → Option Price → Type 0
BestPrice buy m q r = Greatest m q r
BestPrice sell m q r = Least m q r

-- The best level of a sorted far map is at a price that holds orders, and no price that holds orders
-- is better, above it on the bids or below it on the asks; without a best level no price holds any.
pub best_level-BestPrice :
    (f : FarPriceMap) (q : Price) → IsSorted f.levels → BestPrice f.side f.levels q (best_level f)
unfolding best_level
best_level-BestPrice f q s = sided f.side
  where
    sided :
        (side : Side)
        → BestPrice side f.levels q
            (if is_buy side then first_filled (reverse f.levels) else first_filled f.levels)
    sided buy = reverse-Greatest f.levels q s
    sided sell = first_filled-Least f.levels q s
