-- ===== src/Orders/Stream/Complete.antt =====
-- A client that comes back misses no change of its order, and is sent none twice.
use marketplace_api.Prelude.{
  Conversions, List, Text, [], ap, arith, length, nat, refl, some, suc, ℕ, ◌++◌, ◌+◌, ◌∙◌, ◌∷◌, ◌≡◌,
  ◌≤◌, sym,
}
use marketplace_api.Orders.Events.{emit_status_changed, OrderEvents, OrderStatusEvent, no_events}
use marketplace_api.Orders.Events.Replay.{
  change, get_events_after-emit_all, ids-below, numbered, emit_all,
}
use marketplace_api.Orders.Stream.{stream_events, of_this, stream_if, events_for, history_after}
use marketplace_api.Store.{OrderStatus, Db}
use marketplace_api.Orders.Read.{assert_can_view}
use marketplace_api.Store.Tx.{ok}
use marketplace_api.Sql.{select, select-append}

-- The events that changes emit, one after the other.
unfoldable pub emitted : List (ℕ × OrderStatus) → OrderEvents → List OrderStatusEvent
unfolding emit_status_changed
emitted [] s = []
emitted ((o, status) ∷ cs) s =
    (emit_status_changed o status s).0 ∷ emitted cs (emit_status_changed o status s).1

emitted-numbered :
    (cs : List (ℕ × OrderStatus)) (s : OrderEvents) → emitted cs s ≡ numbered s.next_event_id cs
unfolding emitted numbered
emitted-numbered [] s = refl
emitted-numbered ((o, status) ∷ cs) s =
    ap (λ es. change s.next_event_id o status ∷ es)
      (emitted-numbered cs (emit_status_changed o status s).1)

numbered-append :
    (n : ℕ) (cs ds : List (ℕ × OrderStatus))
    → numbered n (cs ++ ds) ≡ numbered n cs ++ numbered (n + length cs) ds
unfolding numbered
numbered-append n [] ds = ap (λ k. numbered k ds) (omega arith)
numbered-append n ((o, status) ∷ cs) ds =
    let next : suc n + length cs ≡ n + suc (length cs) = omega arith in
    ap (λ es. change n o status ∷ es)
      (numbered-append (suc n) cs ds ∙ ap (λ k. numbered (suc n) cs ++ numbered k ds) next)

module _ (conv : Conversions) where
  -- A client knows all the changes that were made so far, `earlier`, and reconnects to the stream of
  -- an order that it may see after `missed`, at most 200 more, with the id of the last event. When
  -- the changes of `later` have been made, it has been sent exactly the changes of this order in
  -- `missed` and in `later`, each once, in their order, with their ids.
  pub stream_events_complete :
      (order_id : Text) (i actor whole : ℕ) (db : Db)
      (earlier missed later : List (ℕ × OrderStatus))
      → conv.number order_id ≡ nat i
      → assert_can_view conv order_id actor db ≡ ok tt
      → length missed ≤ 200
      → let now = emit_all missed (emit_all earlier no_events) in
        stream_events conv order_id actor whole
          (some (conv.string (length earlier)))
          db
          now
          (emitted later now)
        ≡ ok (select (of_this i) (numbered (suc (length earlier)) (missed ++ later)))
  unfolding stream_events
  stream_events_complete order_id i actor whole db earlier missed later named seen few =
      let now = emit_all missed (emit_all earlier no_events) in
      let caught_up = get_events_after-emit_all earlier missed few in
      let (below, next) = ids-below earlier no_events tt in
      let (below', next') = ids-below missed (emit_all earlier no_events) below in
      let at : now.next_event_id ≡ suc (length earlier) + length missed =
        omega (arith, next, next') in
      let live = emitted-numbered later now ∙ ap (λ n. numbered n later) at in
      let k = length earlier in
      let shown = select (of_this i) in
      ap (λ r. stream_if conv r order_id whole (some (conv.string k)) now (emitted later now)) seen
      ∙ ap
          (λ x. ok (
            events_for conv x (history_after whole (conv.number (conv.string k)) now)
            ++ events_for conv x (emitted later now)))
          named
      ∙ ap (λ y. ok (shown (history_after whole y now) ++ shown (emitted later now)))
          (conv.number-string k)
      ∙ ap (λ es. ok (shown es ++ shown (emitted later now))) caught_up
      ∙ ap (λ es. ok (shown (numbered (suc k) missed) ++ shown es)) live
      ∙ ap ok (
          sym (
            ap shown (numbered-append (suc k) missed later)
            ∙ select-append (of_this i) (numbered (suc k) missed) _))
