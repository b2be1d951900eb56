-- ===== src/System/Waiting.antt =====
-- No announcement is lost: the message of an order waits in the outbox, or the broker has it.
use marketplace_api.Prelude.{
  All, All-append, All-mono, Bool, Bool-cases, Conversions, In, In-append_left, In-append_right,
  List, [], ap, arith, inl, inr, not, refl, suc, sym, true, ℕ, ◌++◌, ◌<◌, ◌∙◌, ◌∷◌, ◌≡◌, ◌≢◌, ◌⊎◌,
}
use marketplace_api.Store.{OutboxRow, OrderPlacedEvent, build_order_placed_event, Db, Order}
use marketplace_api.System.{System}
use marketplace_api.Queue.{cleanup_outbox, is_outdated}
use marketplace_api.Outbox.Relay.{is_pending}
use marketplace_api.Outbox.Relay.Settle.{IdsDistinct}
use marketplace_api.Sql.{In-select_intro, select, contains, contains-append}
use marketplace_api.Queue.CleanUp.{cleanup-All, outdated-pending}
use marketplace_api.Pagination.Order.{All-select}
use marketplace_api.System.Placed.{Ordered, Placed, no_order, new_order}
use marketplace_api.Orders.Read.{has_order_id}
use marketplace_api.Outbox.{outbox_row}
use mathlib.Core.Path.{subst}

-- A row of this order that the relay still has to carry.
pub record Waiting (i : ℕ) (rows : List OutboxRow) : Type 0 where
  pub row : OutboxRow
  pub there : In row rows
  pub pending : is_pending row ≡ true
  pub named : row.payload.body.order_id ≡ i

pub record Sent (i : ℕ) (ms : List OrderPlacedEvent) : Type 0 where
  pub event : OrderPlacedEvent
  pub there : In event ms
  pub named : event.body.order_id ≡ i

pub record IsLossless (s : System) : Type 0 where
  pub uuids : All (λ r. r.id < s.db.next_uuid) s.db.outbox
  pub apart : IdsDistinct s.db.outbox
  pub waits :
      (i : ℕ)
      → contains (has_order_id i) s.db.orders ≡ true
      → Waiting i s.db.outbox ⊎ Sent i s.messages

pub Waiting-append : (i : ℕ) (xs ys : List OutboxRow) → Waiting i xs → Waiting i (xs ++ ys)
Waiting-append i xs ys w = record {
  row = w.row;
  there = In-append_left w.row xs ys w.there;
  pending = w.pending;
  named = w.named;
}

pub Sent-append : (i : ℕ) (xs ys : List OrderPlacedEvent) → Sent i xs → Sent i (xs ++ ys)
Sent-append i xs ys w = record {
  event = w.event;
  there = In-append_left w.event xs ys w.there;
  named = w.named;
}

IdsDistinct-append :
    (n : ℕ) (rows : List OutboxRow) (r : OutboxRow)
    → All (λ x. x.id < n) rows
    → r.id ≡ n
    → IdsDistinct rows
    → IdsDistinct (rows ++ r ∷ [])
IdsDistinct-append n [] r h e d = (tt, tt)
IdsDistinct-append n (x ∷ xs) r h e d = (
  All-append (λ (y : OutboxRow). y.id ≢ x.id) xs (r ∷ []) d.0
      ((λ q. ground (arith, h.0, e, q)), tt),
  IdsDistinct-append n xs r h.1 e d.1,
)

-- Rows of which some are gone.
IdsDistinct-select :
    (p : OutboxRow → Bool) (rows : List OutboxRow) → IdsDistinct rows → IdsDistinct (select p rows)
IdsDistinct-select p [] d = tt
IdsDistinct-select p (x ∷ xs) d = elim (Bool-cases (p x)) [
  | inl e ↦ rw e (All-select (λ r. r.id ≢ x.id) p xs d.0, IdsDistinct-select p xs d.1)
  | inr e ↦ rw e (IdsDistinct-select p xs d.1)
]

-- Tables with the same outbox, and with the same orders as far as their ids go.
pub IsLossless-same :
    (s : System) (d : Db)
    → IsLossless s
    → d.outbox ≡ s.db.outbox
    → d.next_uuid ≡ s.db.next_uuid
    → ((i : ℕ) → contains (has_order_id i) d.orders ≡ contains (has_order_id i) s.db.orders)
    → IsLossless (record s { db = d })
IsLossless-same s d h rows next k = record {
  uuids = rw (rows, next) h.uuids;
  apart = rw rows h.apart;
  waits = λ i c. rw rows (h.waits i (sym (k i) ∙ c));
}

pub clean_up-IsLossless :
    (now : ℕ) (s : System)
    → IsLossless s
    → IsLossless (record s { db = (cleanup_outbox now s.db).1 })
unfolding cleanup_outbox
clean_up-IsLossless now s h = record {
  uuids = cleanup-All (λ r. r.id < s.db.next_uuid) now s.db.outbox h.uuids;
  apart = IdsDistinct-select (λ r. not (is_outdated now r)) s.db.outbox h.apart;
  waits = λ i c. elim (h.waits i c) [
    | inr sent ↦ inr sent
    | inl w ↦ inl (record {
      row = w.row;
      there =
          In-select_intro (λ r. not (is_outdated now r)) w.row s.db.outbox w.there
            (ground (arith, outdated-pending now w.row, w.pending));
      pending = w.pending;
      named = w.named;
    })
  ];
}

module _ (conv : Conversions) where
  Placed-IsLossless :
      (now : ℕ) (s : System) (d : Db) (order : Order)
      → IsLossless s
      → Placed conv now s.db d order
      → IsLossless (record s { db = d })
  unfolding build_order_placed_event
  Placed-IsLossless now s d order h p =
      let row = outbox_row conv s.db.next_uuid now (build_order_placed_event conv p.news now) in
      let below =
        All-append (λ (r : OutboxRow). r.id < suc s.db.next_uuid) s.db.outbox (row ∷ [])
          (All-mono (λ (r : OutboxRow). r.id < s.db.next_uuid) (λ r. r.id < suc s.db.next_uuid)
            (λ r l. omega (arith, l)) s.db.outbox h.uuids)
          (omega arith, tt) in
      let grown = λ (i : ℕ).
        ap (contains (has_order_id i)) p.rows
        ∙ contains-append (has_order_id i) s.db.orders order in
      record {
        uuids = rw (p.message, p.uuids) below;
        apart =
            rw p.message (IdsDistinct-append s.db.next_uuid s.db.outbox row h.uuids refl h.apart);
        waits = λ i c. rw p.message (elim (Bool-cases (contains (has_order_id i) s.db.orders)) [
          | inl there ↦ elim (h.waits i there) [
            | inl w ↦ inl (Waiting-append i s.db.outbox (row ∷ []) w)
            | inr sent ↦ inr sent
          ]
          | inr free ↦ inl (record {
            row = row;
            there = In-append_right row s.db.outbox (row ∷ []) (inl refl);
            pending = refl;
            named = p.about ∙ ground (arith, sym (grown i) ∙ c, free);
          })
        ]);
      }

  pub Ordered-IsLossless :
      (now : ℕ) (s : System) (d : Db)
      → IsLossless s
      → Ordered conv now s.db d
      → IsLossless (record s { db = d })
  Ordered-IsLossless now s d h (no_order e) =
      subst (λ x. IsLossless (record s { db = x })) (sym e) h
  Ordered-IsLossless now s d h (new_order order p) = Placed-IsLossless now s d order h p
