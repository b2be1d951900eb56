-- ===== src/Messaging/Publisher.antt =====
-- src/messaging/publisher.ts: the publication of an event with the broker's confirm, and
-- src/messaging/publish-order-placed.ts. What the broker does during a publication is an argument.
mod Tests
pub mod Confirmed
use marketplace_api.Prelude.{
  Bool, List, Option, Text, [], false, if◌then◌else◌, none, not, some, text_eq, true, ◌∷◌,
}
use marketplace_api.Sql.{contains, select}
use marketplace_api.Store.{OrderPlacedEvent}

-- `EventPublisher`: whether a channel is open, and the ids that `basic.return` has brought.
pub record Publisher : Type 0 where
  pub is_open : Bool
  pub returned : List Text

pub data PublishError : Type 0 where
  unreachable missing_exchange unconfirmed unroutable : PublishError

pub data PublishResult : Type 0 where
  published : PublishResult
  not_published : PublishError → PublishResult

-- What the broker does: whether it accepts a connection, whether the exchange exists, the ids that it
-- returns before it confirms, whether it confirms, and whether the channel closes by then.
pub record Turn : Type 0 where
  pub accepts : Bool
  pub has_exchange : Bool
  pub returns : List Text
  pub confirms : Bool
  pub closes : Bool

abbrev pub is_id : Text → Text → Bool
is_id i r = text_eq r i

-- returned.add(id), of a Set; an empty id is not added
abbrev pub add_returned : List Text → List Text → List Text
add_returned [] known = known
add_returned ([] ∷ rs) known = add_returned rs known
add_returned ((c ∷ cs) ∷ rs) known =
    let rest = add_returned rs known in
    if contains (is_id (c ∷ cs)) rest then rest else (c ∷ cs) ∷ rest

-- returned.delete(id): the ids that are left
abbrev pub without_id : Text → List Text → List Text
without_id i known = select (λ r. not (text_eq r i)) known

-- `openChannel`
abbrev pub open_channel : Turn → Publisher → Option PublishError × Publisher
open_channel t p =
    if t.accepts
    then (if t.has_exchange
        then (none, record p { is_open = true })
        else (some missing_exchange, record p { is_open = false }))
    else (some unreachable, record p { is_open = false })

-- `getChannel`
abbrev pub get_channel : Turn → Publisher → Option PublishError × Publisher
get_channel t p = if p.is_open then (none, p) else open_channel t p

-- After the confirm: an event that was returned had no queue.
abbrev pub check_returned : Text → Publisher → PublishResult × Publisher
check_returned i p =
    if contains (is_id i) p.returned
    then (not_published unroutable, record p { returned = without_id i p.returned })
    else (published, p)

abbrev pub confirm : Turn → Text → Publisher → PublishResult × Publisher
confirm t i p =
    let after : Publisher = record {
      is_open = not t.closes;
      returned = add_returned t.returns p.returned;
    } in
    if t.confirms then check_returned i after else (not_published unconfirmed, after)

abbrev pub publish_on : Turn → Text → Option PublishError × Publisher → PublishResult × Publisher
publish_on t i (some e, p) = (not_published e, p)
publish_on t i (none, p) = confirm t i p

-- `publish`
unfoldable pub publish : Turn → OrderPlacedEvent → Publisher → PublishResult × Publisher
publish t event p = publish_on t event.event_id (get_channel t p)

-- What `publishOrderPlaced` makes of it; a publication that takes longer than 3 seconds counts as
-- failed.
abbrev pub is_published : Bool → PublishResult → Bool
is_published in_time published = in_time
is_published in_time (not_published e) = false

-- `publishOrderPlaced`: no failure is thrown.
unfoldable pub publish_order_placed :
    Bool → Bool → Turn → OrderPlacedEvent → Publisher → Bool × Publisher
unfolding publish
publish_order_placed enabled in_time t event p =
    let out = publish t event p in
    if enabled then (is_published in_time out.0, out.1) else (false, p)
