-- ===== src/Core/FarMap/Sorted.antt =====
-- The order of the entries by price, under the operations of the map.
use exchange_engine.Base.{
  ◌≡◌, refl, true, some, [], ◌∷◌, arith, inl, inr, Option-cases, Bool-cases, is_some, if◌then◌else◌,
  ltb_ℤ, eqb_ℤ,
}
use exchange_engine.Core.FixedPoint.{Price}
use exchange_engine.Core.Level.{PriceLevel, new_level}
use exchange_engine.Core.Ladder.{is_spent}
use exchange_engine.Core.FarMap.{
  Entries, FarPriceMap, find, insert, erase, get_or_create_level, remove_level_if_empty,
}

-- Every key is above a price.
abbrev pub IsAbove : Price → Entries → Type 0
IsAbove p [] = Unit {0}
IsAbove p ((k, v) ∷ m) = (ltb_ℤ p k ≡ true) × IsAbove p m

abbrev pub IsSorted : Entries → Type 0
IsSorted [] = Unit {0}
IsSorted ((k, v) ∷ m) = IsAbove k m × IsSorted m

IsAbove-trans : (p q : Price) (m : Entries) → ltb_ℤ p q ≡ true → IsAbove q m → IsAbove p m
IsAbove-trans p q [] h a = tt
IsAbove-trans p q ((k, v) ∷ m) h a = (ground arith, IsAbove-trans p q m h a.1)

IsAbove-insert :
    (q p : Price) (v : PriceLevel) (m : Entries)
    → ltb_ℤ q p ≡ true
    → IsAbove q m
    → IsAbove q (insert p v m)
unfolding insert
IsAbove-insert q p v [] h a = (h, tt)
IsAbove-insert q p v ((k, w) ∷ m) h a = elim (Bool-cases (eqb_ℤ k p)) [
  | inl e ↦ rw e (h, a.1)
  | inr e ↦ elim (Bool-cases (ltb_ℤ p k)) [
    | inl below ↦ rw (e, below) (h, a)
    | inr above ↦ rw (e, above) (a.0, IsAbove-insert q p v m h a.1)
  ]
]

insert-IsSorted : (p : Price) (v : PriceLevel) (m : Entries) → IsSorted m → IsSorted (insert p v m)
unfolding insert
insert-IsSorted p v [] s = (tt, tt)
insert-IsSorted p v ((k, w) ∷ m) s = elim (Bool-cases (eqb_ℤ k p)) [
  | inl e ↦ rw e (IsAbove-equal k p m e s.0, s.1)
  | inr e ↦ elim (Bool-cases (ltb_ℤ p k)) [
    | inl below ↦ rw (e, below) ((below, IsAbove-trans p k m below s.0), s)
    | inr above ↦
        rw (e, above) (IsAbove-insert k p v m (ground arith) s.0, insert-IsSorted p v m s.1)
  ]
]
  where
    IsAbove-equal : (k p : Price) (m : Entries) → eqb_ℤ k p ≡ true → IsAbove k m → IsAbove p m
    IsAbove-equal k p [] e a = tt
    IsAbove-equal k p ((j, w) ∷ m) e a = (ground arith, IsAbove-equal k p m e a.1)

IsAbove-erase : (q p : Price) (m : Entries) → IsAbove q m → IsAbove q (erase p m)
unfolding erase
IsAbove-erase q p [] a = tt
IsAbove-erase q p ((k, w) ∷ m) a = elim (Bool-cases (eqb_ℤ k p)) [
  | inl e ↦ rw e (a.1)
  | inr e ↦ rw e (a.0, IsAbove-erase q p m a.1)
]

erase-IsSorted : (p : Price) (m : Entries) → IsSorted m → IsSorted (erase p m)
unfolding erase
erase-IsSorted p [] s = tt
erase-IsSorted p ((k, w) ∷ m) s = elim (Bool-cases (eqb_ℤ k p)) [
  | inl e ↦ rw e (s.1)
  | inr e ↦ rw e (IsAbove-erase k p m s.0, erase-IsSorted p m s.1)
]

find-insert :
    (p q : Price) (v : PriceLevel) (m : Entries)
    → find q (insert p v m) ≡ (if eqb_ℤ p q then some v else find q m)
unfolding find insert
find-insert p q v [] = refl
find-insert p q v ((k, w) ∷ m) = ground (arith, find-insert p q v m)

-- In a sorted map, making the level of a price and dropping a spent one keep the entries sorted, one
-- for a price; the price then has the level that it had, or an empty one, and every other price is
-- as before.
pub get_or_create_level-IsSorted :
    (f : FarPriceMap) (p q : Price)
    → IsSorted f.levels
    → IsSorted (get_or_create_level f p).levels
      × IsSorted (remove_level_if_empty f p).levels
      × (find q (get_or_create_level f p).levels ≡ (
          if is_some (find p f.levels)
          then find q f.levels
          else (if eqb_ℤ p q then some (new_level p) else find q f.levels)))
unfolding get_or_create_level remove_level_if_empty
get_or_create_level-IsSorted f p q s = elim (Option-cases (find p f.levels)) [
  | inl gone ↦
      rw (gone, remove_level_if_empty)
        (insert-IsSorted p (new_level p) f.levels s, s, find-insert p q (new_level p) f.levels)
  | inr (v, there) ↦ elim (Bool-cases (is_spent v)) [
    | inl e ↦ rw (there, remove_level_if_empty, e) (s, erase-IsSorted p f.levels s, refl)
    | inr e ↦ rw (there, remove_level_if_empty, e) (s, s, refl)
  ]
]
