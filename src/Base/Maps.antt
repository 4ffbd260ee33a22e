-- ===== src/Base/Maps.antt =====
-- `std::unordered_map` and `std::unordered_set` over 64-bit keys, as association lists in which
-- the first entry of a key counts. Iteration order is that of the list.
use Prim.Native.Nat.{ℕ}
use mathlib.Core.Path.{◌≡◌, refl}
use mathlib.Core.Bool.{Bool, true, false}
use mathlib.Core.List.{List, [], ◌∷◌}
use mathlib.Core.Option.{Option, none, some}
use native.Mathlib.Omega.{arith}
use exchange_engine.Base.Tests.{◌==◌, if◌then◌else◌, is_some}

abbrev pub Map {ℓ} : Type ℓ → Type ℓ
Map V = List (ℕ × V)

module _ {ℓ} {V : Type ℓ} where
  unfoldable pub lookup : ℕ → Map V → Option V
  lookup key [] = none
  lookup key ((k, value) ∷ rest) = if k == key then some value else lookup key rest

  -- `m[k] = v`
  unfoldable pub insert : ℕ → V → Map V → Map V
  insert key value [] = (key, value) ∷ []
  insert key value (entry ∷ rest) =
      if entry.0 == key then (key, value) ∷ rest else entry ∷ insert key value rest

  -- `m.erase(k)`
  unfoldable pub erase : ℕ → Map V → Map V
  erase key [] = []
  erase key (entry ∷ rest) = if entry.0 == key then erase key rest else entry ∷ erase key rest

  abbrev pub contains : ℕ → Map V → Bool
  contains k m = is_some (lookup k m)

  pub lookup-insert :
      (key other : ℕ) (value : V) (t : Map V)
      → lookup other (insert key value t) ≡ (if key == other then some value else lookup other t)
  unfolding lookup insert
  lookup-insert key other value [] = refl
  lookup-insert key other value ((i, w) ∷ t) = ground (arith, lookup-insert key other value t)

  pub lookup-erase :
      (key other : ℕ) (t : Map V)
      → lookup other (erase key t) ≡ (if key == other then none else lookup other t)
  unfolding lookup erase
  lookup-erase key other [] = ground arith
  lookup-erase key other ((i, w) ∷ t) = ground (arith, lookup-erase key other t)

-- `std::unordered_set<uint64_t>`
unfoldable pub member : ℕ → List ℕ → Bool
member k [] = false
member k (j ∷ s) = if j == k then true else member k s

unfoldable pub add : ℕ → List ℕ → List ℕ
add k s = if member k s then s else k ∷ s

pub member-add : (k j : ℕ) (s : List ℕ) → member j (add k s) ≡ (if k == j then true else member j s)
unfolding add member
member-add k j s = ground (arith, member_same k j s)
  where
    member_same : (k j : ℕ) (s : List ℕ) → k ≡ j → member k s ≡ member j s
    member_same k j s e = cc
