-- ===== src/Runtime/Risk/Deleveraging.antt =====
-- The candidates of an automatic deleveraging.
use exchange_engine.Base.{
  ◌&&◌, ltb_ℤ, neg_ℤ, ◌+ℤ◌, ◌⊎◌, ◌-◌, ℕ, ◌+◌, ◌<◌, ◌≤◌, ◌≡◌, refl, sym, ◌∙◌, ap, subst, min, Bool,
  true, false, not, ◌||◌, Option, none, some, List, [], ◌∷◌, arith, inl, inr, Bool-cases, leb,
  if◌then◌else◌, ℤ, pos, negsuc, ◌≤ℤ◌, ◌<ℤ◌, leb_ℤ, eqb_ℤ, pos_part,
}
use exchange_engine.Core.OrderBook.Liquidity.{insert_by, sort_by}
use exchange_engine.Adapter.Inputs.{LiquidatePositionInput}
use exchange_engine.Runtime.Risk.{
  PositionRiskKey, IsolatedPositionState, IsolatedRiskState, RiskMap, find_entry, AdlCandidate,
  abs_quantity, has_opposing_exposure, is_zero_quantity, is_excluded, in_profit, adl_candidate,
  push_some, collect_candidates, ranks_before, adl_candidates_for, adl_available,
  total_adl_available,
}

abbrev pub AllOf {ℓ} : {A : Type ℓ} → (A → Type 0) → List A → Type 0
AllOf P [] = Unit {0}
AllOf P (x ∷ xs) = P x × AllOf P xs

abbrev pub In : {A : Type 0} → A → List A → Type 0
In x [] = ⊥
In x (y ∷ ys) = (x ≡ y) ⊎ In x ys

-- One position is long and the other short.
abbrev pub Opposed : ℤ → ℤ → Type 0
Opposed a b = ((pos 0 <ℤ a) × (b <ℤ pos 0)) ⊎ ((a <ℤ pos 0) × (pos 0 <ℤ b))

-- The size of a position, long or short.
abbrev pub IsSize : ℤ → ℤ → Type 0
IsSize q size = ((pos 0 ≤ℤ q) × (size ≡ q)) ⊎ ((q <ℤ pos 0) × (size ≡ neg_ℤ q))

-- A candidate for the deleveraging of a position: an entry of the map of positions in the same market,
-- of another user, exposed the other way, whose own entry in the map of risks is in profit, with the
-- figures of that risk and the whole size of the position.
pub record Eligible (input : LiquidatePositionInput) (liquidated : IsolatedPositionState)
    (positions : RiskMap IsolatedPositionState) (risks : RiskMap IsolatedRiskState)
    (c : AdlCandidate) : Type 0 where
  pub held : In (c.key, c.position) positions
  pub risk : IsolatedRiskState
  pub own_risk : find_entry c.key risks ≡ some risk
  pub in_profit : pos 0 <ℤ risk.unrealized_pnl
  pub pnl : c.unrealized_pnl ≡ risk.unrealized_pnl
  pub leverage : c.leverage ≡ risk.leverage
  pub margin_ratio : c.margin_ratio ≡ risk.margin_ratio
  pub market : eqb_ℤ c.key.market_id input.market_id ≡ true
  pub user : eqb_ℤ c.key.user_id input.liquidated_user_id ≡ false
  pub opposed : Opposed liquidated.signed_quantity c.position.signed_quantity
  pub size : IsSize c.position.signed_quantity c.available_quantity

module _ {A : Type 0} (P : A → Type 0) (before : A → A → Bool) where
  insert-AllOf : (x : A) (xs : List A) → P x → AllOf P xs → AllOf P (insert_by before x xs)
  unfolding insert_by
  insert-AllOf x [] p ps = (p, tt)
  insert-AllOf x (y ∷ ys) p (q, ps) = elim (Bool-cases (before y x)) [
    | inl e ↦ rw e (q, insert-AllOf x ys p ps)
    | inr e ↦ rw e (p, (q, ps))
  ]

  sort-AllOf : (xs : List A) → AllOf P xs → AllOf P (sort_by before xs)
  unfolding sort_by
  sort-AllOf [] ps = tt
  sort-AllOf (x ∷ xs) (p, ps) = insert-AllOf x (sort_by before xs) p (sort-AllOf xs ps)

abbrev IfSome {ℓ} : {A : Type ℓ} → (A → Type 0) → Option A → Type 0
IfSome P none = Unit {0}
IfSome P (some a) = P a

push-AllOf :
    {A : Type 0} (P : A → Type 0) (o : Option A) (xs : List A)
    → IfSome P o
    → AllOf P xs
    → AllOf P (push_some o xs)
push-AllOf P none xs p ps = ps
push-AllOf P (some a) xs p ps = (p, ps)

-- The total of the quantities that the candidates can give.
unfoldable pub exposure : List AdlCandidate → ℕ
exposure [] = 0
exposure (c ∷ cs) = pos_part c.available_quantity + exposure cs

abbrev pub NotNegative : AdlCandidate → Type 0
NotNegative c = pos 0 ≤ℤ c.available_quantity

add_pos : (m k : ℕ) → pos m +ℤ pos k ≡ pos (m + k)
add_pos m k =
    let e : leb (0 + 0) (m + k) ≡ true = ground arith in
    let less : m + k - (0 + 0) ≡ m + k = omega arith in rw (e, less) refl

-- One round of the loop.
available_step :
    (l m : ℕ) (q : ℤ) (rest : ℤ → ℤ) (e : ℕ)
    → pos 0 ≤ℤ q
    → ((k : ℕ) → k < l → rest (pos k) ≡ pos (min l (k + e)))
    → (if leb_ℤ (pos l) (pos m +ℤ q) then pos l else rest (pos m +ℤ q))
      ≡ pos (min l (m + (pos_part q + e)))
available_step l m (negsuc k) rest e p later = absurd (omega arith)
available_step l m (pos k) rest e p later =
    subst (λ t. (if leb_ℤ (pos l) t then pos l else rest t) ≡ pos (min l (m + (k + e))))
      (sym (add_pos m k)) (reached (Bool-cases (leb_ℤ (pos l) (pos (m + k)))))
  where
    reached :
        (leb_ℤ (pos l) (pos (m + k)) ≡ true) ⊎ (leb_ℤ (pos l) (pos (m + k)) ≡ false)
        → (if leb_ℤ (pos l) (pos (m + k)) then pos l else rest (pos (m + k)))
          ≡ pos (min l (m + (k + e)))
    reached (inl h) = let le : l ≤ m + k = ground arith in rw h (ap pos (omega arith))
    reached (inr h) =
        let lt : m + k < l = ground arith in rw h (later (m + k) lt ∙ ap pos (omega arith))

available_lem :
    (l : ℕ) (cs : List AdlCandidate) (m : ℕ)
    → AllOf NotNegative cs
    → m < l
    → adl_available (pos l) (pos m) cs ≡ pos (min l (m + exposure cs))
unfolding adl_available exposure
available_lem l [] m ps h = ap pos (omega arith)
available_lem l (c ∷ cs) m (p, ps) h =
    available_step l m c.available_quantity (λ t. adl_available (pos l) t cs) (exposure cs) p
      (λ k less. available_lem l cs k ps less)

or_left : (a b : Bool) → (a || b) ≡ false → a ≡ false
or_left true b h = h
or_left false b h = refl

or_right : (a b : Bool) → (a || b) ≡ false → b ≡ false
or_right true b h = cc
or_right false b h = h

not_right : (a : Bool) → not a ≡ false → a ≡ true
not_right true h = refl
not_right false h = cc

in_the_black : (n : ℤ) → leb_ℤ n (pos 0) ≡ false → pos 0 <ℤ n
in_the_black n h = ground arith

Opposed-of_true : (a b : ℤ) → has_opposing_exposure a b ≡ true → Opposed a b
Opposed-of_true a b h = elim (Bool-cases (ltb_ℤ (pos 0) a && ltb_ℤ b (pos 0))) [
  | inl e ↦ inl (ground arith, ground arith)
  | inr e ↦ inr (ground arith, ground arith)
]

IsSize-abs_quantity : (q : ℤ) → IsSize q (abs_quantity q)
IsSize-abs_quantity q = elim (Bool-cases (ltb_ℤ q (pos 0))) [
  | inl e ↦ inr (ground arith, rw e refl)
  | inr e ↦ inl (ground arith, rw e refl)
]

module _ (input : LiquidatePositionInput) (liquidated : IsolatedPositionState)
    (positions : RiskMap IsolatedPositionState) (risks : RiskMap IsolatedRiskState) where
  abbrev Fits : AdlCandidate → Type 0
  Fits = Eligible input liquidated positions risks

  profit_entry :
      (key : PositionRiskKey) (p : IsolatedPositionState) (r : Option IsolatedRiskState)
      → In (key, p) positions
      → find_entry key risks ≡ r
      → is_excluded input liquidated key p ≡ false
      → IfSome Fits (in_profit key p r)
  profit_entry key p none held own kept = tt
  profit_entry key p (some r) held own kept = elim (Bool-cases (leb_ℤ r.unrealized_pnl (pos 0))) [
    | inl h ↦ rw h tt
    | inr h ↦
        let rest = or_right (not (eqb_ℤ key.market_id input.market_id)) _ kept in
        let open_one = or_right (eqb_ℤ key.user_id input.liquidated_user_id) _ rest in
        rw h (record {
          held = held;
          risk = r;
          own_risk = own;
          in_profit = in_the_black r.unrealized_pnl h;
          pnl = refl;
          leverage = refl;
          margin_ratio = refl;
          market = not_right (eqb_ℤ key.market_id input.market_id) (or_left _ _ kept);
          user = or_left (eqb_ℤ key.user_id input.liquidated_user_id) _ rest;
          opposed =
              Opposed-of_true liquidated.signed_quantity p.signed_quantity
                (not_right _ (or_right (is_zero_quantity p.signed_quantity) _ open_one));
          size = IsSize-abs_quantity p.signed_quantity;
        })
  ]

  candidate_entry :
      (key : PositionRiskKey) (p : IsolatedPositionState)
      → In (key, p) positions
      → IfSome Fits (adl_candidate input liquidated risks key p)
  candidate_entry key p held = elim (Bool-cases (is_excluded input liquidated key p)) [
    | inl e ↦ rw e tt
    | inr e ↦ rw e (profit_entry key p (find_entry key risks) held refl e)
  ]

  collected :
      (entries : RiskMap IsolatedPositionState)
      → ((x : PositionRiskKey × IsolatedPositionState) → In x entries → In x positions)
      → AllOf Fits (collect_candidates input liquidated risks entries)
  unfolding collect_candidates
  collected [] sub = tt
  collected ((key, p) ∷ entries) sub =
      push-AllOf Fits (adl_candidate input liquidated risks key p)
        (collect_candidates input liquidated risks entries)
        (candidate_entry key p (sub (key, p) (inl refl))) (collected entries (λ x h. sub x (inr h)))

-- Every candidate of a deleveraging is an entry of the map of positions, in the same market, of
-- another user, long where the liquidated position is short or the other way round; its own entry in
-- the map of risks is in profit and gives its profit, leverage and margin ratio, and it offers the
-- whole size of the position.
pub adl_candidates_for-AllOf :
    (input : LiquidatePositionInput) (liquidated : IsolatedPositionState)
    (positions : RiskMap IsolatedPositionState) (risks : RiskMap IsolatedRiskState)
    → AllOf
        (Eligible input liquidated positions risks)
        (adl_candidates_for input liquidated positions risks)
unfolding adl_candidates_for
adl_candidates_for-AllOf input liquidated positions risks =
    sort-AllOf (Eligible input liquidated positions risks) ranks_before _
      (collected input liquidated positions risks positions (λ x h. h))

size-NotNegative : (q size : ℤ) → IsSize q size → pos 0 ≤ℤ size
size-NotNegative q size (inl (h, e)) = subst (λ n. pos 0 ≤ℤ n) (sym e) h
size-NotNegative (pos n) size (inr (h, e)) = absurd (omega arith)
size-NotNegative (negsuc n) size (inr (h, e)) = subst (λ n. pos 0 ≤ℤ n) (sym e) (ground arith)

offers :
    (input : LiquidatePositionInput) (liquidated : IsolatedPositionState)
    (positions : RiskMap IsolatedPositionState) (risks : RiskMap IsolatedRiskState)
    (cs : List AdlCandidate)
    → AllOf (Eligible input liquidated positions risks) cs
    → AllOf NotNegative cs
offers input liquidated positions risks [] ps = tt
offers input liquidated positions risks (c ∷ cs) (p, ps) = (
  size-NotNegative c.position.signed_quantity c.available_quantity p.size,
  offers input liquidated positions risks cs ps,
)

-- What is available for the deleveraging of a positive quantity is all that the candidates offer
-- together, and at most the quantity.
pub total_adl_available_lem :
    (input : LiquidatePositionInput) (liquidated : IsolatedPositionState)
    (positions : RiskMap IsolatedPositionState) (risks : RiskMap IsolatedRiskState) (limit : ℕ)
    → 0 < limit
    → let cs = adl_candidates_for input liquidated positions risks in
      total_adl_available cs (pos limit) ≡ pos (min limit (exposure cs))
unfolding total_adl_available
total_adl_available_lem input liquidated positions risks limit h =
    let cs = adl_candidates_for input liquidated positions risks in
    available_lem limit cs 0
      (offers input liquidated positions risks cs
        (adl_candidates_for-AllOf input liquidated positions risks))
      h
    ∙ ap (λ n. pos (min limit n)) (omega arith)
