-- ===== src/Products/Controller.antt =====
-- `getCard` of src/products/products.controller.ts: a product number in the path, and 404 for what is
-- none or has no card.
pub mod Shown
use marketplace_api.Prelude.{Bool, Conversions, Option, Text, none, positive?, some, ℕ}
use marketplace_api.Store.Tx.{Result, err, ok, not_found}
use marketplace_api.Products.Cards.{Answered, Others, CardWorld, get_card}
use marketplace_api.Products.Card.{ProductCard}

abbrev pub card_or_404 : Result (Option ProductCard) → Result ProductCard
card_or_404 (err e) = err e
card_or_404 (ok none) = err not_found
card_or_404 (ok (some c)) = ok c

abbrev pub answered_card : Option Answered → Option (Result ProductCard × CardWorld)
answered_card none = none
answered_card (some (r, w)) = some (card_or_404 r, w)

module _ (conv : Conversions) (o : Others) (draw : ℕ) (token : Text) where
  abbrev pub card_numbered :
      Option ℕ → Bool → ℕ → CardWorld → Option (Result ProductCard × CardWorld)
  card_numbered none single_flight polls w = some (err not_found, w)
  card_numbered (some i) single_flight polls w =
      answered_card (get_card conv o draw token i single_flight polls w)

  -- `getCard`
  unfoldable pub get_product_card :
      Text → Bool → ℕ → CardWorld → Option (Result ProductCard × CardWorld)
  unfolding get_card
  get_product_card product_id single_flight polls w =
      card_numbered (positive? (conv.number product_id)) single_flight polls w
