-- ===== src/Orders/Read/Access.antt =====
-- Who sees an order.
use mathlib.Core.Path.{subst}
use marketplace_api.Prelude.{
  Conversions, Number, Option-cases, Text, arith, fraction, inl, inr, nan, nat, negative, refl,
  some, true, ℕ, ◌||◌, ◌≡◌, ◌<◌, ◌^◌, ◌≢◌, ◌⊎◌,
}
use marketplace_api.Store.{Db, Order}
use marketplace_api.Orders.Read.{
  assert_can_view, find_order, has_order_id, owned_by, is_admin, role_of, can_view, find_one_for,
  find_one, OrderResponse, load_order, as_view,
}
use marketplace_api.Sql.{find}
use marketplace_api.Store.Tx.{ok, Result, Failure, err}

module _ (conv : Conversions) where
  pub record Visible (order_id : Number) (actor : ℕ) (db : Db) : Type 0 where
    pub number : ℕ
    pub order : Order
    pub named : order_id ≡ nat number
    pub stored : find (has_order_id number) db.orders ≡ some order
    pub small : number < 2 ^ 31
    pub entitled : owned_by conv actor order || is_admin conv (role_of conv actor db) ≡ true

  assert-Visible :
      (order_id : Text) (actor : ℕ) (db : Db) (x : Number)
      → conv.number order_id ≡ x
      → assert_can_view conv order_id actor db ≡ ok tt
      → Visible x actor db
  unfolding assert_can_view find_order
  assert-Visible order_id actor db nan e h = absurd (ground (arith, e, h))
  assert-Visible order_id actor db fraction e h = absurd (ground (arith, e, h))
  assert-Visible order_id actor db (negative n) e h = absurd (ground (arith, e, h))
  assert-Visible order_id actor db (nat n) e h =
      elim (Option-cases (find (has_order_id n) db.orders)) [
        | inl f ↦ absurd (ground (arith, e, h, f))
        | inr (o, f) ↦ record {
          number = n;
          order = o;
          named = refl;
          stored = f;
          small = ground (arith, e, h, f);
          entitled = ground (arith, e, h, f);
        }
      ]

  result-cases : (r : Result (Unit {0})) → (r ≡ ok tt) ⊎ ((f : Failure) × (r ≡ err f))
  result-cases (ok u) = inl refl
  result-cases (err f) = inr (f, refl)

  refused-hides : (f : Failure) → as_view conv (err f) ≢ ok true
  refused-hides f = ground arith

  pub can-Visible :
      (n actor : ℕ) (db : Db) → can_view conv n actor db ≡ ok true → Visible (nat n) actor db
  unfolding can_view
  can-Visible n actor db h =
      assert-Visible (conv.string n) actor db (nat n) (conv.number-string n)
        (elim (result-cases (assert_can_view conv (conv.string n) actor db)) [
          | inl e ↦ e
          | inr (f, e) ↦ absurd (refused-hides f (subst (λ r. as_view conv r ≡ ok true) e h))
        ])

  pub find_one-number :
      (order_id : Text) (n : ℕ) (o : Order) (db : Db)
      → conv.number order_id ≡ nat n
      → n < 2 ^ 31
      → find (has_order_id n) db.orders ≡ some o
      → find_one conv order_id db ≡ ok (load_order conv db o)
  unfolding find_one find_order
  find_one-number order_id n o db e lt f = ground (arith, e, f)

  -- An order is shown only to its owner and to an admin, as the table of users has the role now;
  -- what is shown is the order of that number.
  pub find_one_for-Visible :
      (order_id : Text) (actor : ℕ) (db : Db) (r : OrderResponse)
      → find_one_for conv order_id actor db ≡ ok r
      → (v : Visible (conv.number order_id) actor db) × (r ≡ load_order conv db v.order)
  unfolding find_one_for
  find_one_for-Visible order_id actor db r h =
      elim (result-cases (assert_can_view conv order_id actor db)) [
        | inr (f, e) ↦ absurd (ground (arith, e, h))
        | inl e ↦
            let v = assert-Visible order_id actor db (conv.number order_id) refl e in
            (
              v,
              ground (
                arith,
                e,
                h,
                find_one-number order_id v.number v.order db v.named v.small v.stored,
              ),
            )
      ]
