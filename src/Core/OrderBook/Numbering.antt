-- ===== src/Core/OrderBook/Numbering.antt =====
-- The numbering of events by their event ids, sequences and trade ids.
use exchange_engine.Base.{
  ◌==◌, ℕ, ◌≡◌, refl, List, [], ◌∷◌, ◌++◌, arith, inl, inr, Bool, true, false, Option-cases,
  Bool-cases, not, ◌&&◌,
}
use exchange_engine.Core.FixedPoint.{Price, Quantity}
use exchange_engine.Core.Types.{
  order_not_found, Side, EngineEvent, event_id, event_sequence, order_accepted, trade_executed,
  Order, is_filled, RejectReason, PlaceOrderCommand, CancelOrderCommand,
}
use exchange_engine.Core.Sequence.{SequenceGenerator, increment, make_rejection}
use exchange_engine.Core.SideBook.{Place}
use exchange_engine.Core.OrderBook.State.{OrderBook, find_order}
use exchange_engine.Core.OrderBook.Log.{Log, push_event, push_trade, push_fill, reject}
use exchange_engine.Core.OrderBook.Matching.{Matching, fill_maker, match_incoming_order}
use exchange_engine.Core.OrderBook.Matching.Termination.{match_incoming_rule}
use exchange_engine.Core.OrderBook.Place.{
  process_place, accept, finish_place, rest_remaining, place_rejection, can_rest,
}
use exchange_engine.Core.OrderBook.Cancel.{
  process_cancel, cancel_existing_order, cancel_found, cancel_target,
}

-- The event ids of the list count up from `e` to `e'`, and the sequences from `s` to `s'`.
abbrev pub Counts : ℕ → ℕ → List EngineEvent → ℕ → ℕ → Type 0
Counts e s [] e' s' = (e ≡ e') × (s ≡ s')
Counts e s (x ∷ xs) e' s' =
    (event_id x ≡ e) × (event_sequence x ≡ s) × Counts (increment e) (increment s) xs e' s'

-- The trade ids count up from `t` to `t'`.
abbrev pub CountsTrades : ℕ → List EngineEvent → ℕ → Type 0
CountsTrades t [] t' = t ≡ t'
CountsTrades t (trade_executed e s id y m k p q ∷ xs) t' =
    (id ≡ t) × CountsTrades (increment t) xs t'
CountsTrades t (x ∷ xs) t' = CountsTrades t xs t'

-- The events take the numbers of one generator, in order, and leave the other.
pub record Numbered (g : SequenceGenerator) (log : Log) : Type 0 where
  pub stamps : Counts g.next_event_id g.next_sequence log.0 log.1.next_event_id log.1.next_sequence
  pub trades : CountsTrades g.next_trade_id log.0 log.1.next_trade_id

abbrev is_trade : EngineEvent → Bool
is_trade (trade_executed e s id y m k p q) = true
is_trade _ = false

Counts-snoc :
    (e s : ℕ) (xs : List EngineEvent) (x : EngineEvent) (e' s' : ℕ)
    → Counts e s xs e' s'
    → event_id x ≡ e'
    → event_sequence x ≡ s'
    → Counts e s (xs ++ (x ∷ [])) (increment e') (increment s')
Counts-snoc e s [] x e' s' c i j = ground arith
Counts-snoc e s (y ∷ xs) x e' s' c i j =
    (c.0, c.1, Counts-snoc (increment e) (increment s) xs x e' s' c.2 i j)

CountsTrades-snoc :
    (t : ℕ) (xs : List EngineEvent) (x : EngineEvent) (t' : ℕ)
    → is_trade x ≡ false
    → CountsTrades t xs t'
    → CountsTrades t (xs ++ (x ∷ [])) t'
CountsTrades-snoc t [] (order_accepted _ _ _ _ _ _ _ _ _) t' n c = c
CountsTrades-snoc t [] (trade_executed _ _ _ _ _ _ _ _) t' n c = cc
CountsTrades-snoc t [] x t' n c = c
CountsTrades-snoc t (trade_executed e s id y m k p q ∷ xs) x t' n c =
    (c.0, CountsTrades-snoc (increment t) xs x t' n c.1)
CountsTrades-snoc t (y ∷ xs) x t' n c = CountsTrades-snoc t xs x t' n c

CountsTrades-snoc_trade :
    (t : ℕ) (xs : List EngineEvent) (e s y m k : ℕ) (p : Price) (q : Quantity) (t' : ℕ)
    → CountsTrades t xs t'
    → CountsTrades t (xs ++ (trade_executed e s t' y m k p q ∷ [])) (increment t')
CountsTrades-snoc_trade t [] e s y m k p q t' c = ground arith
CountsTrades-snoc_trade t (trade_executed e' s' id y' m' k' p' q' ∷ xs) e s y m k p q t' c =
    (c.0, CountsTrades-snoc_trade (increment t) xs e s y m k p q t' c.1)
CountsTrades-snoc_trade t (x ∷ xs) e s y m k p q t' c =
    CountsTrades-snoc_trade t xs e s y m k p q t' c

-- A constructor that puts its two stamps into the event, and that makes no trade.
abbrev IsStamper : (ℕ → ℕ → EngineEvent) → Type 0
IsStamper make =
    (e s : ℕ)
    → (event_id (make e s) ≡ e) × (event_sequence (make e s) ≡ s) × (is_trade (make e s) ≡ false)

push_event-Numbered :
    (g : SequenceGenerator) (log : Log) (make : ℕ → ℕ → EngineEvent)
    → IsStamper make
    → Numbered g log
    → Numbered g (push_event log make)
unfolding push_event
push_event-Numbered g (events, h) make k n =
    let (i, j, f) = k h.next_event_id h.next_sequence in
    record {
      stamps = Counts-snoc _ _ events _ _ _ n.stamps i j;
      trades = CountsTrades-snoc _ events _ _ f n.trades;
    }

push_trade-Numbered :
    (g : SequenceGenerator) (log : Log) (y m k : ℕ) (p : Price) (q : Quantity)
    → Numbered g log
    → Numbered g (push_trade log (λ e s t. trade_executed e s t y m k p q))
unfolding push_trade
push_trade-Numbered g (events, h) y m k p q n = record {
  stamps = Counts-snoc _ _ events _ _ _ n.stamps refl refl;
  trades =
      CountsTrades-snoc_trade _ events h.next_event_id h.next_sequence y m k p q h.next_trade_id
        n.trades;
}

push_fill-Numbered :
    (g : SequenceGenerator) (log : Log) (o : Order) → Numbered g log → Numbered g (push_fill log o)
unfolding push_fill
push_fill-Numbered g log o n = elim (Bool-cases (is_filled o)) [
  | inl e ↦ rw e (push_event-Numbered g log _ (λ e s. (refl, refl, refl)) n)
  | inr e ↦ rw e (push_event-Numbered g log _ (λ e s. (refl, refl, refl)) n)
]

fill_maker-Numbered :
    (g : SequenceGenerator) (m : Matching) (place : Place) (maker : Order)
    → Numbered g m.log
    → Numbered g (fill_maker m place maker).log
unfolding fill_maker
fill_maker-Numbered g m place maker n =
    push_event-Numbered g _ _ (λ e s. (refl, refl, refl))
      (push_fill-Numbered g _ _ (push_fill-Numbered g _ _ (push_trade-Numbered g _ _ _ _ _ _ n)))

match-Numbered :
    (g : SequenceGenerator) (m : Matching)
    → Numbered g m.log
    → Numbered g (match_incoming_order m).log
match-Numbered g m n =
    (match_incoming_rule (λ k. Numbered g k.log)
      (λ k place maker p e. fill_maker-Numbered g k place maker p) m n).0

accept-Numbered :
    (b : OrderBook) (c : PlaceOrderCommand) (g : SequenceGenerator) → Numbered g (accept b c g).log
unfolding accept
accept-Numbered b c g = record { stamps = (refl, refl, (refl, refl)); trades = refl }

pub reject-Numbered :
    (g : SequenceGenerator) (command_id order_id user_id symbol_id : ℕ) (reason : RejectReason)
    → Numbered g (reject g command_id order_id user_id symbol_id reason)
unfolding reject make_rejection
reject-Numbered g command_id order_id user_id symbol_id reason = record {
  stamps = (refl, refl, (refl, refl));
  trades = refl;
}

finish_place-Numbered :
    (g : SequenceGenerator) (c : PlaceOrderCommand) (m : Matching)
    → Numbered g m.log
    → Numbered g (finish_place c m).1
unfolding finish_place rest_remaining
finish_place-Numbered g c m n = elim (Bool-cases (can_rest c && not (is_filled m.incoming))) [
  | inl rests ↦ rw rests (push_event-Numbered g m.log _ (λ e s. (refl, refl, refl)) n)
  | inr done ↦ rw done n
]

-- Whatever a place command does, its events count on from the generator without a gap.
pub process_place-Numbered :
    (b : OrderBook) (c : PlaceOrderCommand) (g : SequenceGenerator)
    → Numbered g (process_place b c g).1
unfolding process_place
process_place-Numbered b c g = elim (Option-cases (place_rejection b c)) [
  | inl accepted ↦
      rw (accepted, process_place)
        (finish_place-Numbered g c _ (match-Numbered g _ (accept-Numbered b c g)))
  | inr (reason, refused) ↦
      rw (refused, process_place)
        (reject-Numbered g c.command_id c.order_id c.user_id c.symbol_id reason)
]

cancel_found-Numbered :
    (b : OrderBook) (id : ℕ) (side : Side) (place : Place) (o : Order) (g : SequenceGenerator)
    → Numbered g (cancel_found b id side place o g).1
unfolding cancel_found
cancel_found-Numbered b id side place o g =
    push_event-Numbered g _ _ (λ e s. (refl, refl, refl))
      (push_event-Numbered g ([], g) _ (λ e s. (refl, refl, refl))
        (record { stamps = (refl, refl); trades = refl }))

cancel_existing-Numbered :
    (b : OrderBook) (id : ℕ) (g : SequenceGenerator) → Numbered g (cancel_existing_order b id g).1
unfolding cancel_existing_order
cancel_existing-Numbered b id g = elim (Option-cases (find_order b id)) [
  | inl e ↦
      rw (e, cancel_existing_order)
        (reject-Numbered g 0 id 0 b.symbol_config.symbol_id order_not_found)
  | inr ((side, place, o), e) ↦
      rw (e, cancel_existing_order) (cancel_found-Numbered b id side place o g)
]

-- So do the events of a cancel command.
pub process_cancel-Numbered :
    (b : OrderBook) (c : CancelOrderCommand) (g : SequenceGenerator)
    → Numbered g (process_cancel b c g).1
unfolding process_cancel
process_cancel-Numbered b c g =
    let refused =
      reject-Numbered g c.command_id (cancel_target b c) c.user_id c.symbol_id order_not_found in
    elim (Option-cases (find_order b (cancel_target b c))) [
      | inl e ↦ rw (e, process_cancel) refused
      | inr ((side, place, o), e) ↦
          rw (e, process_cancel)
            (elim (Bool-cases (o.user_id == c.user_id)) [
              | inl own ↦ rw own (cancel_existing-Numbered b (cancel_target b c) g)
              | inr other ↦ rw other refused
            ])
    ]
