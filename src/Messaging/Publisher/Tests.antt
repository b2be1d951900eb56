-- ===== src/Messaging/Publisher/Tests.antt =====
-- Publications of one event.
use marketplace_api.Prelude.{Text-discrete, [], false, refl, text, unary, ◌∷◌, ◌≡◌, ◌≢◌}
use marketplace_api.Store.{OrderPlacedEvent, build_order_placed_event, order_placed_event_id}
use marketplace_api.Messaging.Publisher.{
  Publisher, publish, Turn, published, not_published, unroutable,
}
use marketplace_api.Messaging.Publisher.Confirmed.{clear_turn, Confirmed, publish-Confirmed}

abbrev event : OrderPlacedEvent
event =
    build_order_placed_event unary
      (record {
        order_id = 1;
        customer_email = text "a@x";
        total_cents = 100;
        currency = text "UAH";
        items = [];
      })
      5

event_id-ne_nil : event.event_id ≢ []
unfolding build_order_placed_event order_placed_event_id
event_id-ne_nil e = absurd (cc)

abbrev idle : Publisher
idle = record { is_open = false; returned = [] }

publish-Confirmed_example :
    ((publish clear_turn event idle).0 ≡ published → Confirmed clear_turn event idle)
    × ((publish clear_turn event idle).0 ≡ not_published unroutable
        → (publish clear_turn event (publish clear_turn event idle).1).0 ≡ published)
publish-Confirmed_example = publish-Confirmed clear_turn event idle event_id-ne_nil

published_at_once : (publish clear_turn event idle).0 ≡ published
unfolding publish
published_at_once = refl

-- The id of a return stays when the confirm fails, and the next publication, which the broker
-- confirms and does not return, is refused for it.
abbrev lost_turn : Turn
lost_turn = record clear_turn { returns = event.event_id ∷ []; confirms = false }

refused_once :
    (publish clear_turn event (publish lost_turn event idle).1).0 ≡ not_published unroutable
unfolding publish build_order_placed_event order_placed_event_id Text-discrete unary
refused_once = refl
