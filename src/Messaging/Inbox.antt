-- ===== src/Messaging/Inbox.antt =====
-- The marks and the effects of the consumer (src/messaging/consumer.ts), and what one message adds.
use marketplace_api.Prelude.{
  Bool-cases, Text, [], arith, false, inl, inr, leb, length, refl, text_eq, text_eq_refl,
  text_eq→eq, true, ◌&&◌, ◌++◌, ◌∷◌, ◌≡◌, ◌≢◌, ◌≤◌,
}
use marketplace_api.Store.{Db, ProcessedOrderEvent}
use marketplace_api.Messaging.Consumer.{
  PlacedEvent, mark_and_insert, mark_of, insert_mark, has_event_id, is_mark, insert_event,
  fits_int4,
}
use marketplace_api.Sql.{affected, contains, free-affected, contains-append, affected-append}
use mathlib.Core.Path.{subst}
use marketplace_api.Store.Tx.{ok, err, database_error}

pub record IsInbox (db : Db) : Type 0 where
  -- An event has at most one effect, and exactly one if its mark is there.
  pub once : (i : Text) → affected (has_event_id i) db.processed_order_events ≤ 1
  pub marked :
      (i : Text)
      → contains (is_mark i) db.processed_messages ≡ true
      → affected (has_event_id i) db.processed_order_events ≡ 1

abbrev pub effect_row : PlacedEvent → ProcessedOrderEvent
effect_row e = record { event_id = e.event_id; order_id = e.order_id }

abbrev pub with_mark : PlacedEvent → Db → Db
with_mark e db = record db { processed_messages = db.processed_messages ++ mark_of e.event_id ∷ [] }

abbrev pub with_effect : PlacedEvent → Db → Db
with_effect e db = record db {
  processed_order_events = db.processed_order_events ++ effect_row e ∷ [];
}

-- A mark may be set when the effect is there.
pub mark-IsInbox :
    (e : PlacedEvent) (db : Db)
    → IsInbox db
    → affected (has_event_id e.event_id) db.processed_order_events ≡ 1
    → IsInbox (with_mark e db)
mark-IsInbox e db s one = record {
  once = s.once;
  marked = λ i h. elim (Bool-cases (text_eq e.event_id i)) [
    | inl y ↦
        subst (λ j. affected (has_event_id j) db.processed_order_events ≡ 1) (text_eq→eq _ _ y) one
    | inr n ↦
        ground (
          arith,
          s.marked i,
          contains-append (is_mark i) db.processed_messages (mark_of e.event_id),
        )
  ];
}

-- An effect may be added when there is none and no mark.
pub effect-IsInbox :
    (e : PlacedEvent) (db : Db)
    → IsInbox db
    → contains (is_mark e.event_id) db.processed_messages ≡ false
    → contains (has_event_id e.event_id) db.processed_order_events ≡ false
    → IsInbox (with_effect e db)
      × (affected (has_event_id e.event_id) (with_effect e db).processed_order_events ≡ 1)
effect-IsInbox e db s unmarked free =
    let zero_before = free-affected (has_event_id e.event_id) db.processed_order_events free in
    let after = λ (i : Text).
      affected-append (has_event_id i) db.processed_order_events (effect_row e ∷ []) in
    (
      record {
        once = λ i. elim (Bool-cases (text_eq e.event_id i)) [
          | inl y ↦
              subst (λ j. affected (has_event_id j) (with_effect e db).processed_order_events ≤ 1)
                (text_eq→eq _ _ y) (ground (arith, after e.event_id, zero_before))
          | inr n ↦ ground (arith, after i, s.once i)
        ];
        marked = λ i h. elim (Bool-cases (text_eq e.event_id i)) [
          | inl y ↦ absurd (
              subst (λ j. contains (is_mark j) db.processed_messages ≢ true) (text_eq→eq _ _ y)
                (λ k. ground arith) h)
          | inr n ↦ ground (arith, after i, s.marked i h)
        ];
      },
      ground (arith, after e.event_id, zero_before, text_eq_refl e.event_id),
    )

-- What the body of the transaction makes of each case.
pub data Applied (e : PlacedEvent) (db : Db) : Type 0 where
  duplicate :
      contains (is_mark e.event_id) db.processed_messages ≡ true
      → mark_and_insert e db ≡ ok (false, db)
      → Applied e db
  refused : mark_and_insert e db ≡ err database_error → Applied e db
  already :
      contains (has_event_id e.event_id) db.processed_order_events ≡ true
      → mark_and_insert e db ≡ ok (true, with_mark e db)
      → Applied e db
  applied :
      contains (is_mark e.event_id) db.processed_messages ≡ false
      → contains (has_event_id e.event_id) db.processed_order_events ≡ false
      → mark_and_insert e db ≡ ok (true, with_effect e (with_mark e db))
      → Applied e db

pub Applied-cases : (e : PlacedEvent) (db : Db) → Applied e db
unfolding mark_and_insert insert_mark insert_event
Applied-cases e db = elim (Bool-cases (contains (is_mark e.event_id) db.processed_messages)) [
  | inl dup ↦ duplicate dup (rw (dup) refl)
  | inr fresh ↦ elim (Bool-cases (fits_int4 e.order_id && leb (length e.event_id) 200)) [
    | inr wide ↦ refused (rw (fresh, wide) refl)
    | inl fits ↦ elim (Bool-cases (contains (has_event_id e.event_id) db.processed_order_events)) [
      | inl there ↦ already there (rw (fresh, fits, there) refl)
      | inr free ↦ applied fresh free (rw (fresh, fits, free) refl)
    ]
  ]
]
