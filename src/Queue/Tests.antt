-- ===== src/Queue/Tests.antt =====
-- A row that waits, one that was published long ago, and one that was published lately.
use marketplace_api.Prelude.{
  All, Option, [], length, none, refl, some, tally, text, unary, ℕ, ◌+◌, ◌∷◌, ◌≡◌,
}
use marketplace_api.Store.{
  OutboxRow, Db, aggregate_order, empty_db, routing_key_order_placed, build_order_placed_event,
}
use marketplace_api.Queue.{cleanup_outbox}
use marketplace_api.Sql.{select}
use marketplace_api.Outbox.Relay.{is_pending}
use marketplace_api.Queue.CleanUp.{cleanup_outbox-pending, IsKept, IsSettled}

abbrev row : ℕ → Option ℕ → OutboxRow
row id published = record {
  id = id;
  aggregate_type = aggregate_order;
  aggregate_id = tally 1;
  type = routing_key_order_placed;
  payload =
      build_order_placed_event unary
        (record {
          order_id = 1;
          customer_email = text "a@x";
          total_cents = 100;
          currency = text "UAH";
          items = [];
        })
        5;
  created_at = 5;
  published_at = published;
  attempts = 0;
}

abbrev kept_two : Db
kept_two = record empty_db { outbox = row 1 none ∷ row 2 (some 8) ∷ row 3 (some 900000000) ∷ [] }

cleanup_outbox-pending_example :
    let (removed, d) = cleanup_outbox 900000001 kept_two in
    (select is_pending d.outbox ≡ select is_pending kept_two.outbox)
    × All (IsKept 900000001) d.outbox
    × All (IsSettled 900000001 d.outbox) kept_two.outbox
    × (removed + length d.outbox ≡ length kept_two.outbox)
cleanup_outbox-pending_example = cleanup_outbox-pending 900000001 kept_two

one_removed : (cleanup_outbox 900000001 kept_two).0 ≡ 1
unfolding cleanup_outbox
one_removed = refl
