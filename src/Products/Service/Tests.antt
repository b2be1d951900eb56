-- ===== src/Products/Service/Tests.antt =====
-- A lamp is created twice.
use marketplace_api.Prelude.{arith, none, refl, text, unary, ℕ, ◌≡◌}
use marketplace_api.Products.Service.{
  CreateProductDto, ProductResponse, create_product, product_response, new_product,
  find_product_one,
}
use marketplace_api.Store.{empty_db}
use marketplace_api.Store.Tx.{ok, err, conflict}
use marketplace_api.Products.Service.Created.{create_product-find_product_one}

abbrev lamp : CreateProductDto
lamp = record { name = text "lamp"; price_cents = 50; stock = 9; currency = none }

abbrev lamp_answer : ProductResponse
lamp_answer = product_response unary (new_product 3 lamp)

created_lamp : (create_product unary 3 lamp empty_db).0 ≡ ok lamp_answer
unfolding create_product
created_lamp = refl

create_product-find_product_one_example :
    let d = (create_product unary 3 lamp empty_db).1 in
    (find_product_one unary (unary.string 3) d ≡ ok lamp_answer)
    × (lamp_answer.id ≡ unary.string 3)
    × (lamp_answer.name ≡ lamp.name)
    × (lamp_answer.price_cents ≡ lamp.price_cents)
    × ((j : ℕ) → create_product unary j lamp d ≡ (err conflict, d))
create_product-find_product_one_example =
    create_product-find_product_one unary 3 lamp empty_db lamp_answer refl (omega arith)
      created_lamp
