-- ===== src/Orders/Create/Total.antt =====
-- What an order costs, and what the outbox says of it.
use marketplace_api.Prelude.{
  Conversions, List, [], arith, false, map, refl, ℕ, ◌*◌, ◌++◌, ◌+◌, ◌∷◌, ◌≡◌, Option, ap, sym, ◌∙◌,
}
use marketplace_api.Store.{build_order_placed_event, OrderItem, Db, Order}
use marketplace_api.Orders.Create.{
  PricedItem, new_item, total_of, CreateOrderDto, insert_order_with_event, order_data,
}
use marketplace_api.Sql.{select, contains, select-append, select-none}
use marketplace_api.Orders.Read.{of_order}
use marketplace_api.Orders.Create.Saved.{Saved, insert-Saved_priced}
use mathlib.Core.Path.{subst}
use marketplace_api.Outbox.Announced.{IsAnnounced, notice_of, Announced-append, notice_in}
use marketplace_api.Store.Tx.{ok}
use marketplace_api.Outbox.{outbox_row}
use marketplace_api.Orders.Create.Priced.{AreOrdered, price_items-AreOrdered}

module _ (conv : Conversions) where
  -- The cents of the lines as they are stored.
  abbrev pub lines_total : List OrderItem → ℕ
  lines_total [] = 0
  lines_total (r ∷ rs) = r.quantity * r.price_at_purchase_cents + lines_total rs

  pub select-new_item :
      (i : ℕ) (ps : List PricedItem)
      → select (of_order i) (map (new_item conv i) ps) ≡ map (new_item conv i) ps
  select-new_item i [] = refl
  select-new_item i (p ∷ ps) = ground (arith, select-new_item i ps)

  pub lines-of :
      (now : ℕ) (db d : Db) (order : Order) (s : Saved conv now db d order)
      → contains (of_order db.next_order_id) db.order_items ≡ false
      → select (of_order order.id) d.order_items ≡ map (new_item conv order.id) s.priced
  lines-of now db d order s fresh =
      let free = subst (λ i. contains (of_order i) db.order_items ≡ false) (sym s.ids) fresh in
      ap (select (of_order order.id)) s.lines
      ∙ select-append (of_order order.id) db.order_items (map (new_item conv order.id) s.priced)
      ∙ ap (λ xs. xs ++ select (of_order order.id) (map (new_item conv order.id) s.priced))
          (select-none (of_order order.id) db.order_items free)
      ∙ select-new_item order.id s.priced

  pub total-new_item :
      (i : ℕ) (ps : List PricedItem) → lines_total (map (new_item conv i) ps) ≡ total_of conv ps
  total-new_item i [] = refl
  total-new_item i (p ∷ ps) = grind (arith, total-new_item i ps)

  -- For a new order with a fresh id: it has one line for each item of the request, in their order,
  -- with the product of that number, the quantity of the item, and the price that the product has;
  -- its total is the sum of its stored lines, each the quantity at the price; and an outbox that
  -- announces each order exactly once still does.
  pub insert_order_with_event-total :
      (now : ℕ) (dto : CreateOrderDto) (user_id : Option ℕ) (db d : Db) (order : Order)
      → contains (of_order db.next_order_id) db.order_items ≡ false
      → IsAnnounced db
      → insert_order_with_event conv now dto user_id db ≡ ok (order, d)
      → AreOrdered conv dto.items db.products (select (of_order order.id) d.order_items)
        × (order.total_cents ≡ lines_total (select (of_order order.id) d.order_items))
        × IsAnnounced d
  unfolding build_order_placed_event
  insert_order_with_event-total now dto user_id db d order fresh a h =
      let (s, prices) = insert-Saved_priced conv now dto user_id db d order h in
      let stored = lines-of now db d order s fresh in
      (
        subst (AreOrdered conv dto.items db.products) (sym stored)
            (price_items-AreOrdered conv order.id dto.items db.products s.priced prices),
        s.total ∙ sym (total-new_item order.id s.priced) ∙ ap lines_total (sym stored),
        ap (map notice_of) s.rows
            ∙ Announced-append db.orders db.outbox order
                (outbox_row conv db.next_uuid now
                  (build_order_placed_event conv (order_data conv order s.priced) now))
                a refl
            ∙ sym (ap (map notice_in) s.message),
      )
