-- ===== src/Messaging/Once.antt =====
-- What the consumer makes of deliveries that repeat, fail half-way or are put back.
use marketplace_api.Prelude.{
  Bool, Option, Text, some, true, ◌≡◌, arith, false, refl, text_eq_refl, ◌∙◌,
}
use marketplace_api.Store.{Db}
use marketplace_api.Messaging.Consumer.{
  PlacedEvent, Hooks, Body, has_event_id, parse_order_placed, handle_message, is_mark, acknowledge,
  mark_of, apply_order_placed_effect, mark_and_insert, settle, insert_mark, skipped, handle_parsed,
  consumer_order_placed,
}
use marketplace_api.Sql.{affected, contains, contains-append, contains-affected}
use marketplace_api.Store.Tx.{Result, ok, err, transaction}
use marketplace_api.Messaging.Inbox.{
  IsInbox, with_mark, Applied-cases, duplicate, refused, already, applied, mark-IsInbox,
  effect-IsInbox, with_effect,
}

-- The inbox stays as it should, and when the transaction commits the event has its one effect.
apply_order_placed_effect-once :
    (reachable : Bool) (e : PlacedEvent) (db : Db)
    → IsInbox db
    → let out = apply_order_placed_effect reachable e db in
      IsInbox out.1
      × ((b : Bool)
          → out.0 ≡ ok b
          → affected (has_event_id e.event_id) out.1.processed_order_events ≡ 1)
unfolding apply_order_placed_effect transaction
apply_order_placed_effect-once false e db s = (s, λ b h. absurd (cc))
apply_order_placed_effect-once true e db s = elim (Applied-cases e db) [
  | duplicate dup eq ↦ rw eq (s, λ b h. s.marked e.event_id dup)
  | refused eq ↦ rw eq (s, λ b h. absurd (cc))
  | already there eq ↦
      let at_least = contains-affected (has_event_id e.event_id) db.processed_order_events there in
      let one : affected (has_event_id e.event_id) db.processed_order_events ≡ 1 =
        omega (arith, at_least, s.once e.event_id) in
      rw eq (mark-IsInbox e db s one, λ b h. one)
  | applied fresh free eq ↦
      let (inbox, one) = effect-IsInbox e db s fresh free in
      rw eq (mark-IsInbox e (with_effect e db) inbox one, λ b h. one)
]

settle-acknowledge :
    (h : Hooks) (r : Result Bool) → (settle h r).0 ≡ acknowledge → (b : Bool) × (r ≡ ok b)
settle-acknowledge h (ok b) e = (b, refl)
settle-acknowledge h (err f) e = absurd (cc)

-- Handling a message keeps at most one effect for each event and exactly one for each marked event,
-- whether or not the database answers and whatever the hooks decide; and a message is acknowledged
-- only when its event has had its one effect.
pub handle_message-once :
    (reachable : Bool) (h : Hooks) (body : Option Body) (e : PlacedEvent) (db : Db)
    → IsInbox db
    → parse_order_placed body ≡ some e
    → let out = handle_message reachable h body db in
      IsInbox out.1
      × (out.0.0 ≡ acknowledge
          → affected (has_event_id e.event_id) out.1.processed_order_events ≡ 1)
unfolding handle_message
handle_message-once reachable h body e db s p =
    let (inbox, one) = apply_order_placed_effect-once reachable e db s in
    rw p (
      inbox,
      λ a.
          let (b, done) = settle-acknowledge h (apply_order_placed_effect reachable e db).0 a in
          one b done,
    )

own_mark : (i : Text) → is_mark i (mark_of i) ≡ true
own_mark i = rw (text_eq_refl i) (text_eq_refl consumer_order_placed)

with_mark-marked :
    (e : PlacedEvent) (db : Db)
    → contains (is_mark e.event_id) (with_mark e db).processed_messages ≡ true
with_mark-marked e db =
    contains-append (is_mark e.event_id) db.processed_messages (mark_of e.event_id)
    ∙ rw (own_mark e.event_id) (ground arith)

committed-marked :
    (e : PlacedEvent) (db : Db) (b : Bool)
    → (apply_order_placed_effect true e db).0 ≡ ok b
    → contains (is_mark e.event_id) (apply_order_placed_effect true e db).1.processed_messages
      ≡ true
unfolding apply_order_placed_effect transaction
committed-marked e db b = elim (Applied-cases e db) [
  | duplicate dup eq ↦ rw eq (λ h. dup)
  | refused eq ↦ rw eq (λ h. absurd (cc))
  | already there eq ↦ rw eq (λ h. with_mark-marked e db)
  | applied fresh free eq ↦ rw eq (λ h. with_mark-marked e db)
]

marked-duplicate :
    (e : PlacedEvent) (db : Db)
    → contains (is_mark e.event_id) db.processed_messages ≡ true
    → apply_order_placed_effect true e db ≡ (ok false, db)
unfolding apply_order_placed_effect transaction mark_and_insert insert_mark
marked-duplicate e db h = rw h refl

settle-duplicate :
    (h : Hooks) → (settle h (ok false)).0 ≡ acknowledge → (settle h (ok false)).1 ≡ skipped
settle-duplicate h = ground arith

handle-duplicate :
    (h : Hooks) (reachable : Bool) (e : PlacedEvent) (db : Db)
    → contains (is_mark e.event_id) db.processed_messages ≡ true
    → let out = handle_parsed reachable h (some e) db in
      (out.1 ≡ db) × (out.0.0 ≡ acknowledge → out.0.1 ≡ skipped)
unfolding apply_order_placed_effect
handle-duplicate h false e db m = (refl, λ k. absurd (cc))
handle-duplicate h true e db m = rw (marked-duplicate e db m) (refl, settle-duplicate h)

-- Once the effect of a message has been committed, each later delivery of the message leaves the
-- tables as they are, and is settled as a duplicate when it is acknowledged.
handle_message-duplicate :
    (h : Hooks) (reachable b : Bool) (body : Option Body) (e : PlacedEvent) (db : Db)
    → parse_order_placed body ≡ some e
    → (apply_order_placed_effect true e db).0 ≡ ok b
    → let after = (apply_order_placed_effect true e db).1 in
      let out = handle_message reachable h body after in
      (out.1 ≡ after) × (out.0.0 ≡ acknowledge → out.0.1 ≡ skipped)
unfolding handle_message
handle_message-duplicate h reachable b body e db p c =
    rw p (handle-duplicate h reachable e _ (committed-marked e db b c))
