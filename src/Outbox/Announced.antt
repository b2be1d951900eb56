-- ===== src/Outbox/Announced.antt =====
-- An outbox that announces each order once, in the order of creation.
use mathlib.Core.List.{map-append}
use marketplace_api.Prelude.{ℕ, Text, List, [], ◌∷◌, ◌++◌, map, ◌≡◌}
use marketplace_api.Store.{Db, Order, OutboxRow}

pub record Notice : Type 0 where
  pub order_id : ℕ
  pub customer_email : Text
  pub total_cents : ℕ
  pub currency : Text

abbrev pub notice_of : Order → Notice
notice_of o = record {
  order_id = o.id;
  customer_email = o.customer_email;
  total_cents = o.total_cents;
  currency = o.currency;
}

abbrev pub notice_in : OutboxRow → Notice
notice_in r = record {
  order_id = r.payload.body.order_id;
  customer_email = r.payload.body.customer_email;
  total_cents = r.payload.body.total_cents;
  currency = r.payload.body.currency;
}

abbrev pub IsAnnounced : Db → Type 0
IsAnnounced db = map notice_of db.orders ≡ map notice_in db.outbox

-- An order and its row, appended together.
pub Announced-append :
    (os : List Order) (rs : List OutboxRow) (o : Order) (r : OutboxRow)
    → map notice_of os ≡ map notice_in rs
    → notice_of o ≡ notice_in r
    → map notice_of (os ++ o ∷ []) ≡ map notice_in (rs ++ r ∷ [])
Announced-append os rs o r h e =
    rw (map-append notice_of os (o ∷ []), map-append notice_in rs (r ∷ []), h, e)
