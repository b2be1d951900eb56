-- ===== src/Outbox/Relay/Tests.antt =====
-- Passes over a small outbox.
use marketplace_api.Outbox.Relay.{World, default_options, relay_once, is_pending}
use marketplace_api.Outbox.Relay.Drain.{relay_once-drains}
use marketplace_api.Outbox.Relay.Settle.{AllSettled, relay_once-AllSettled}
use marketplace_api.Outbox.{outbox_row}
use marketplace_api.Store.{Db, OutboxRow, build_order_placed_event, OrderPlacedData, empty_db}
use marketplace_api.Store.Tx.{ok, err, internal_error}
use marketplace_api.Prelude.{[], arith, false, map, not, refl, true, unary, ℕ, ◌==◌, ◌∷◌, ◌≡◌}
use marketplace_api.Sql.{affected}

abbrev notice : ℕ → OrderPlacedData
notice id = record {
  order_id = id;
  customer_email = [];
  total_cents = 10;
  currency = [];
  items = [];
}

abbrev row : ℕ → ℕ → OutboxRow
row id created = outbox_row unary id created (build_order_placed_event unary (notice id) created)

-- The row of order 2 is the oldest.
abbrev full : Db
full = record empty_db { outbox = row 1 20 ∷ row 2 10 ∷ row 3 30 ∷ [] }

abbrev calm : World
calm = record { now = 50; busy = λ r. false; confirms = λ r. true; hook_returns = true }

-- The broker refuses row 1, so row 3 waits for the next pass.
abbrev refusing : World
refusing = record calm { confirms = λ r. not (r.id == 1) }

refused_pass :
    (relay_once default_options refusing full).0 ≡ ok (record { published = 1; failed = 1 })
unfolding relay_once build_order_placed_event
refused_pass = refl

refused_rows :
    map (λ (r : OutboxRow). r.attempts) (relay_once default_options refusing full).1.outbox
    ≡ 1 ∷ 1 ∷ 0 ∷ []
unfolding relay_once build_order_placed_event
refused_rows = refl

died_at_hook :
    relay_once default_options (record calm { hook_returns = false }) full
    ≡ (err internal_error, full)
unfolding relay_once
died_at_hook = refl

relay_once-AllSettled_example :
    AllSettled refusing full.outbox (relay_once default_options refusing full).1.outbox
relay_once-AllSettled_example = relay_once-AllSettled default_options refusing full (omega arith)

relay_once-drains_example :
    ((relay_once default_options calm full).0 ≡ ok (record { published = 3; failed = 0 }))
    × (affected is_pending (relay_once default_options calm full).1.outbox ≡ 0)
relay_once-drains_example =
    relay_once-drains default_options calm full refl (λ r. refl) (λ r. refl) refl (omega arith)
