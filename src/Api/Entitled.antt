-- ===== src/Api/Entitled.antt =====
-- Who changes the tables over HTTP, and who sees an order.
use marketplace_api.Sql.{find}
use marketplace_api.Api.{
  patch_status, post_product, list_orders, list_products, get_order, get_product, HttpReply,
  one_order, reply,
}
use marketplace_api.Prelude.{
  Conversions, Option, Text, [], ap, false, inl, inr, none, refl, some, sym, true, ℕ, ◌∙◌, ◌∷◌, ◌≡◌,
  ◌⊎◌, arith,
}
use marketplace_api.Auth.Guards.{Verdict, includes, admit, has_id}
use marketplace_api.Store.{UserRole, seller, admin, customer, User}
use marketplace_api.Pagination.{Cursors}
use marketplace_api.Store.Tx.{Failure, err, ok, Result}
use marketplace_api.Auth.Tokens.{Jwt, KeyStore, AccessPrincipal}
use marketplace_api.Api.{
  Route, serve_request, Server, roles_of_route, is_public_route, handle_route, after_guards,
  request_to, list_orders, get_order,
}
use marketplace_api.Auth.Guards.Laws.{Admitted, admit-Admitted}
use mathlib.Core.Path.{subst}
use marketplace_api.Orders.Read.Access.{Visible, find_one_for-Visible}
use marketplace_api.Orders.Read.{load_order, find_one_for}
use mathlib.Core.Option.{some-injective}

verdict-cases :
    (v : Verdict) → ((e : Failure) × (v ≡ err e)) ⊎ ((p : Option AccessPrincipal) × (v ≡ ok p))
verdict-cases (err e) = inl (e, refl)
verdict-cases (ok p) = inr (p, refl)

reply-ok :
    {A : Type 0} (f : A → HttpReply) (r : Result A) (rep : HttpReply)
    → reply f r ≡ ok rep
    → (a : A) × (r ≡ ok a) × (rep ≡ f a)
reply-ok f (ok a) rep h = (a, refl, ground (arith, h))
reply-ok f (err e) rep h = absurd (cc)

refused-reply : (e : Failure) (rep : HttpReply) → ◌≡◌ {A = Result HttpReply} (err e) (ok rep) → ⊥
refused-reply e rep h = absurd (cc)

includes-role :
    (role : UserRole)
    → includes (seller ∷ admin ∷ []) role ≡ true
    → (role ≡ seller) ⊎ (role ≡ admin)
includes-role customer h = absurd (cc)
includes-role seller h = inl refl
includes-role admin h = inr refl

module _ (conv : Conversions) (cursors : Cursors) (next_id : ℕ) {Key : Type 0} (jwt : Jwt Key)
    (ks : KeyStore Key) (now : ℕ) where
  abbrev verdict_on : Route → Text → Server → Verdict
  verdict_on route authorization s =
      admit jwt ks now s.denylist s.db (request_to route authorization)

  -- What a principal has shown who may change the tables.
  abbrev pub IsMerchant : Route → Text → Server → Type 0
  IsMerchant route authorization s =
      (q : AccessPrincipal) × Admitted jwt ks now s.denylist s.db (request_to route authorization) q
      × (u : User) × (find (has_id q.user_id) s.db.users ≡ some u)
      × ((u.role ≡ seller) ⊎ (u.role ≡ admin))

  Admitted-IsMerchant :
      (route : Route) (authorization : Text) (s : Server) (q : AccessPrincipal)
      → roles_of_route route ≡ seller ∷ admin ∷ []
      → Admitted jwt ks now s.denylist s.db (request_to route authorization) q
      → IsMerchant route authorization s
  Admitted-IsMerchant route authorization s q roles a = elim a.entitled [
    | inl none_required ↦ absurd (cc)
    | inr (u, e, h) ↦
        (q, a, u, e, includes-role u.role (ap (λ rs. includes rs u.role) (sym roles) ∙ h))
  ]

  admit-IsMerchant :
      (route : Route) (authorization : Text) (s : Server) (p : Option AccessPrincipal)
      → is_public_route route ≡ false
      → roles_of_route route ≡ seller ∷ admin ∷ []
      → verdict_on route authorization s ≡ ok p
      → IsMerchant route authorization s
  admit-IsMerchant route authorization s p private roles h =
      let (q, e, a) =
        admit-Admitted jwt ks now s.denylist s.db (request_to route authorization) p refl private
          h in
      Admitted-IsMerchant route authorization s q roles a

  handle_route-IsMerchant :
      (route : Route) (authorization : Text) (s : Server) (p : Option AccessPrincipal)
      → verdict_on route authorization s ≡ ok p
      → ((handle_route conv cursors next_id p route s).1 ≡ s) ⊎ IsMerchant route authorization s
  handle_route-IsMerchant (list_orders limit cursor) authorization s (some p) h = inl refl
  handle_route-IsMerchant (list_orders limit cursor) authorization s none h = inl refl
  handle_route-IsMerchant (get_order id) authorization s (some p) h = inl refl
  handle_route-IsMerchant (get_order id) authorization s none h = inl refl
  handle_route-IsMerchant (patch_status id status) authorization s p h =
      inr (admit-IsMerchant (patch_status id status) authorization s p refl refl h)
  handle_route-IsMerchant (list_products limit cursor) authorization s (some p) h = inl refl
  handle_route-IsMerchant (list_products limit cursor) authorization s none h = inl refl
  handle_route-IsMerchant (get_product id) authorization s (some p) h = inl refl
  handle_route-IsMerchant (get_product id) authorization s none h = inl refl
  handle_route-IsMerchant (post_product dto) authorization s p h =
      inr (admit-IsMerchant (post_product dto) authorization s p refl refl h)

  -- A request to one of these routes leaves the tables, the events and the denylist as they were,
  -- unless the guards admitted it with a token that verifies and is not denied, of a user who is a
  -- seller or an admin in the table.
  pub serve_request-IsMerchant :
      (route : Route) (authorization : Text) (s : Server)
      → ((serve_request conv cursors next_id jwt ks now route authorization s).1 ≡ s)
        ⊎ IsMerchant route authorization s
  unfolding serve_request
  serve_request-IsMerchant route authorization s =
      elim (verdict-cases (verdict_on route authorization s)) [
        | inl (e, h) ↦ inl (ap (λ v. (after_guards conv cursors next_id v route s).1) h)
        | inr (p, h) ↦
            subst
              (λ v.
                ((after_guards conv cursors next_id v route s).1 ≡ s)
                ⊎ IsMerchant route authorization s)
              (sym h) (handle_route-IsMerchant route authorization s p h)
      ]

  -- The order of an answer of the route `GET /orders/:orderId`.
  reply-Visible :
      (id : Text) (authorization : Text) (s : Server) (rep : HttpReply) (p : Option AccessPrincipal)
      → verdict_on (get_order id) authorization s ≡ ok p
      → (handle_route conv cursors next_id p (get_order id) s).0 ≡ ok rep
      → (q : AccessPrincipal) × Admitted jwt ks now s.denylist s.db
          (request_to (get_order id) authorization)
          q
        × (v : Visible conv (conv.number id) q.user_id s.db) × (rep
            ≡ one_order (load_order conv s.db v.order))
  reply-Visible id authorization s rep none h shown = absurd (cc)
  reply-Visible id authorization s rep (some p) h shown =
      let (q, e, a) =
        admit-Admitted jwt ks now s.denylist s.db (request_to (get_order id) authorization) (some p)
          refl refl h in
      let (r, found, shape) = reply-ok one_order (find_one_for conv id p.user_id s.db) rep shown in
      let (v, same) = find_one_for-Visible conv id p.user_id s.db r found in
      (
        p,
        subst (Admitted jwt ks now s.denylist s.db (request_to (get_order id) authorization))
            (sym (some-injective p q e)) a,
        v,
        shape ∙ ap one_order same,
      )

  -- An order that the route `GET /orders/:orderId` shows is the one of that number, and is shown to an
  -- admitted user who owns it or is an admin in the table.
  pub serve_request-Visible :
      (id : Text) (authorization : Text) (s : Server) (rep : HttpReply)
      → (serve_request conv cursors next_id jwt ks now (get_order id) authorization s).0 ≡ ok rep
      → (q : AccessPrincipal) × Admitted jwt ks now s.denylist s.db
          (request_to (get_order id) authorization)
          q
        × (v : Visible conv (conv.number id) q.user_id s.db) × (rep
            ≡ one_order (load_order conv s.db v.order))
  unfolding serve_request
  serve_request-Visible id authorization s rep shown =
      elim (verdict-cases (verdict_on (get_order id) authorization s)) [
        | inl (e, h) ↦ absurd (
            refused-reply e rep (
              subst (λ v. (after_guards conv cursors next_id v (get_order id) s).0 ≡ ok rep) h
                shown))
        | inr (p, h) ↦
            reply-Visible id authorization s rep p h (
              subst (λ v. (after_guards conv cursors next_id v (get_order id) s).0 ≡ ok rep) h
                shown)
      ]
