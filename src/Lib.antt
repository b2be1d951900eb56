-- ===== src/Lib.antt =====
-- A marketplace API: its purchases, orders, events and sign-in, as functions over the tables and
-- over Redis.
--
-- The parts and the files:
--   Prelude    shared names: texts, Boolean tests, lists over the native numbers, and what the code
--              uses of JavaScript's numbers (Prelude/Js).
--   Sql        SELECT, UPDATE and their counts over lists of rows, with their laws; Sql/Guarded is
--              the decrement under a guard that the checkout runs twice.
--   Store      src/entities, the tables of src/migrations and src/messaging/events.ts; Store/Tx is
--              a transaction (src/messaging/pg-store.ts and TypeORM's `transaction`).
--   Checkout   src/checkout.ts; Checkout/Race is src/demo-race.ts.
--   Outbox     src/outbox/outbox.ts; Outbox/Relay is src/outbox/relay.ts. An order's row is written
--              in the transaction of the order, and the relay carries it to the broker later.
--   Messaging  src/messaging/consumer.ts, which applies what the relay published, and
--              Messaging/Publisher, which is publisher.ts and publish-order-placed.ts;
--              Messaging/Receipts is src/messaging/run-consumer.ts with the receipts that it queues.
--   Orders     src/orders/orders.service.ts with its request bodies: Orders/Create, its child
--              Idempotent, Orders/Read and Orders/Status; Orders/Events is
--              src/orders/order-events.service.ts, and Orders/Gateway src/orders/orders.gateway.ts.
--              Orders/Page is `findAll`; Orders/Cards is `create` with the cards that it drops;
--              Orders/Controller and Orders/Stream are src/orders/orders.controller.ts.
--   Products   src/products: Products/Service (products.service.ts), Products/Card (the card and its
--              query, with src/cache/ttl.ts), Products/Cards (product-card.service.ts) and
--              Products/Controller; Products/Report is src/report.ts.
--   Queue      src/queue: the processor of jobs and the clean-up of the outbox.
--   Sessions   src/sessions: Sessions/Store and Sessions/Cookie.
--   Cache      src/cache/redis-cache.ts and redis-lock.ts.
--   Pagination src/common/pagination.ts; Pagination/Keyset is the page of both `findAll` methods.
--   Redis      keys with an expiry time.
--   RateLimit  src/ratelimit: RateLimit/Window is sliding-window-limiter.ts, the Lua script included;
--              RateLimit/Adapters are the guard, the middleware and the login throttle.
--   Auth       src/auth: Denylist (access-denylist.ts), RefreshTokens (refresh-token.service.ts),
--              Tokens (token.service.ts, key-store.ts), Bearer and Guards (auth.guard.ts,
--              roles.guard.ts), Service (auth.service.ts, password.ts), Config (src/config/auth-env.ts
--              and the constructor of key-store.ts), Controller (auth.controller.ts, with the
--              limiter of logins of auth.module.ts). Service/Login follows a token from the login
--              to the guards.
--   Workers    src/demo-workers.ts: workers that claim rows with FOR UPDATE SKIP LOCKED.
--   Retry      src/demo-retry.ts: transactions under REPEATABLE READ that are repeated.
--   Seed       src/seed.ts: the orders that it inserts.
--   Problem    src/common/filters/problem-exception.filter.ts.
--   Api        the routes of orders.controller.ts and products.controller.ts that read and write the
--              tables, behind the guards.
--   System     the parts together: orders and purchases, passes of the relay, the broker's deliveries
--              to the consumer and clean-ups, in any order. `stage` is the abstract view of an order:
--              absent, placed or with its effect.
--
-- The state is `Db`, a record of the tables as lists of rows. An operation that the code runs in a
-- transaction is a function of `Db` into a failure or a value with the new tables, and a failure
-- leaves the tables as they were; transactions follow each other, since the code's statements lock
-- the rows that they change. Amounts, ids and times are natural numbers, and the limits of integer
-- columns are written out. What a query parameter is after `Number(text)` is a value of `Number`,
-- in which NaN, a fraction and a negative number are cases of their own.
--
-- Parameters stand for code outside the repository: the conversions between numbers and texts, of
-- which a number printed and read again is itself; the cursors of a page, where decoding undoes
-- encoding; the hash of refresh tokens, argon2, the signing, decoding and verification of a JWT
-- (`IsSigner` is what jsonwebtoken documents of a token that it has signed), the functions on URIs
-- (`IsUri`), random texts and UUIDs, the broker's answers, `add` of BullMQ (`IsTasks` is what it
-- documents of a job's id; no job ends meanwhile), and the rows that another transaction holds. In
-- `System` the broker may deliver what it has been sent at any time, again, in any order, or never,
-- until it has come back more often than the delivery limit of src/messaging/topology.ts.
-- `Others` is what other processes do while a request for a card waits or loads.
--
-- Fuel: `relay_loop` takes the number of its passes, as the loop of the code ends only when it is
-- told to; a request for a card polls at most 81 times, since 2000 ms hold 80 pauses of 25 ms;
-- `walk`, a client that follows cursors, needs more requests than there are rows.
--
-- Not modelled: JSON and base64, the HTTP layer and its validation pipes, logs, pauses, the queue
-- and the broker libraries with the declarations of queues and exchanges, connections, the other
-- demo scripts, and the deployment files; columns `createdAt` that nothing here reads; the gaps
-- that a rolled back transaction leaves in a sequence of ids. Transactions and single commands of
-- Redis do not interleave; what happens between two of them is a parameter or an action of its own.
-- In `Workers` and `Retry` they do: a schedule says whose statement comes next and whether it
-- fails, and row locks, snapshots and the error of a late writer are as PostgreSQL documents them.
pub mod Seed
pub mod Prelude
pub mod Sql
pub mod Pagination
pub mod Store
pub mod Outbox
pub mod Redis
pub mod Auth
pub mod Checkout
pub mod Orders
pub mod Messaging
pub mod RateLimit
pub mod Sessions
pub mod Cache
pub mod Products
pub mod System
pub mod Queue
pub mod Problem
pub mod Workers
pub mod Retry
pub mod Api
