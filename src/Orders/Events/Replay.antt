-- ===== src/Orders/Events/Replay.antt =====
-- A client that reconnects catches up on the status changes that it missed.
use mathlib.Core.List.{append-nil, append_assoc}
use mathlib.Core.Path.{subst}
use marketplace_api.Prelude.{
  All, Bool-cases, List, [], arith, inl, inr, length, ltb, refl, suc, ℕ, ◌++◌, ◌+◌, ◌<◌, ◌∷◌, ◌≡◌,
  ◌≤◌, All-append, length-append, All-mono, ◌∙◌, ap,
}
use marketplace_api.Orders.Events.{
  emit_status_changed, OrderStatusEvent, get_events_after, OrderEvents, remember, no_events,
}
use marketplace_api.Store.{OrderStatus}
use marketplace_api.Sql.{select}

-- The changes in their order, as pairs of an order and its new status.
unfoldable pub emit_all : List (ℕ × OrderStatus) → OrderEvents → OrderEvents
unfolding emit_status_changed
emit_all [] s = s
emit_all ((o, status) ∷ cs) s = emit_all cs (emit_status_changed o status s).1

unfoldable pub numbered : ℕ → List (ℕ × OrderStatus) → List OrderStatusEvent
numbered n [] = []
numbered n ((o, status) ∷ cs) =
    (record { id = n; order_id = o; status = status }) ∷ numbered (suc n) cs

abbrev events : List OrderStatusEvent → ℕ → OrderEvents
events h n = record { history = h; next_event_id = n }

abbrev pub change : ℕ → ℕ → OrderStatus → OrderStatusEvent
change n o status = record { id = n; order_id = o; status = status }

remember-split :
    (old new : List OrderStatusEvent) (k : ℕ)
    → All (λ e. e.id ≤ k) old
    → length new ≤ 200
    → (rest : List OrderStatusEvent) × All (λ e. e.id ≤ k) rest
      × (remember (old ++ new) ≡ rest ++ new)
remember-split [] new k h l = ([], tt, ground arith)
remember-split (e ∷ es) new k h l = elim (Bool-cases (ltb 200 (length ((e ∷ es) ++ new)))) [
  | inl full ↦ (es, h.1, rw full refl)
  | inr fits ↦ (e ∷ es, h, rw fits refl)
]

select-above :
    (old new : List OrderStatusEvent) (k : ℕ)
    → All (λ e. e.id ≤ k) old
    → All (λ e. k < e.id) new
    → select (λ e. ltb k e.id) (old ++ new) ≡ new
select-above [] [] k h l = refl
select-above [] (e ∷ es) k h l = ground (arith, select-above [] es k tt l.1)
select-above (e ∷ es) new k h l = ground (arith, select-above es new k h.1 l)

replay-from :
    (cs : List (ℕ × OrderStatus)) (old new : List OrderStatusEvent) (k n : ℕ)
    → All (λ e. e.id ≤ k) old
    → All (λ e. k < e.id) new
    → k < n
    → length new + length cs ≤ 200
    → get_events_after k (emit_all cs (events (old ++ new) n)) ≡ new ++ numbered n cs
unfolding emit_all numbered get_events_after
replay-from [] old new k n h l lt fits = rw (append-nil new) (select-above old new k h l)
replay-from ((o, status) ∷ cs) old new k n h l lt fits =
    let more = new ++ change n o status ∷ [] in
    let long = length-append new (change n o status ∷ []) in
    let (rest, kept, e) = remember-split old more k h (omega (arith, long, fits)) in
    let above = All-append (λ e. k < e.id) new (change n o status ∷ []) l (lt, tt) in
    let ih =
      replay-from cs rest more k (suc n) kept above (omega arith) (omega (arith, long, fits)) in
    let shape = append_assoc old new (change n o status ∷ []) in
    ap (λ hs. get_events_after k (emit_all cs (events (remember hs) (suc n)))) shape
    ∙ ap (λ hs. get_events_after k (emit_all cs (events hs (suc n)))) e
    ∙ ih
    ∙ append_assoc new (change n o status ∷ []) (numbered (suc n) cs)

remember-All :
    (P : OrderStatusEvent → Type 0) (es : List OrderStatusEvent) → All P es → All P (remember es)
remember-All P [] h = tt
remember-All P (e ∷ es) h = ground (arith, h)

pub ids-below :
    (cs : List (ℕ × OrderStatus)) (s : OrderEvents)
    → All (λ e. e.id < s.next_event_id) s.history
    → (All (λ e. e.id < (emit_all cs s).next_event_id) (emit_all cs s).history)
      × ((emit_all cs s).next_event_id ≡ s.next_event_id + length cs)
unfolding emit_all emit_status_changed
ids-below [] s h = (h, omega arith)
ids-below ((o, status) ∷ cs) s h =
    let n = s.next_event_id in
    let e = change n o status in
    let older =
      All-mono (λ (x : OrderStatusEvent). x.id < n) (λ x. x.id < suc n) (λ x g. omega arith)
        s.history h in
    let all =
      All-append (λ (x : OrderStatusEvent). x.id < suc n) s.history (e ∷ []) older
        (omega arith, tt) in
    let (below, next) =
      ids-below cs (emit_status_changed o status s).1 (remember-All (λ x. x.id < suc n) _ all) in
    (below, omega (arith, next))

-- A client that has seen all the changes so far, and comes back after at most 200 more, asks for
-- the events after the last id that it knows: it gets exactly the changes that it missed, once
-- each, in their order, with their ids.
pub get_events_after-emit_all :
    (earlier missed : List (ℕ × OrderStatus))
    → length missed ≤ 200
    → get_events_after (length earlier) (emit_all missed (emit_all earlier no_events))
      ≡ numbered (suc (length earlier)) missed
get_events_after-emit_all earlier missed h =
    let s = emit_all earlier no_events in
    let (below, next) = ids-below earlier no_events tt in
    let now : s.next_event_id ≡ suc (length earlier) = omega (arith, next) in
    let old =
      All-mono (λ (x : OrderStatusEvent). x.id < s.next_event_id) (λ x. x.id ≤ length earlier)
        (λ x g. omega (arith, next)) s.history below in
    let caught_up =
      replay-from missed s.history [] (length earlier) s.next_event_id old tt (omega (arith, next))
        (omega (arith, h)) in
    let whole =
      subst
        (λ hs.
          get_events_after (length earlier) (emit_all missed (events hs s.next_event_id))
          ≡ numbered s.next_event_id missed)
        (append-nil s.history) caught_up in
    subst (λ n. get_events_after (length earlier) (emit_all missed s) ≡ numbered n missed) now whole
