-- ===== src/Store/Empty.antt =====
-- Tables with no rows, from which the tests build theirs.
use marketplace_api.Store.Tables.{Db}
use marketplace_api.Prelude.{[]}

abbrev pub empty_db : Db
empty_db = record {
  products = [];
  users = [];
  orders = [];
  order_items = [];
  jobs = [];
  outbox = [];
  idempotency_keys = [];
  processed_messages = [];
  processed_order_events = [];
  refresh_tokens = [];
  next_order_id = 1;
  next_uuid = 1;
}
