-- ===== src/Database/Products.antt =====
-- `list_product_rows`. `precedes` is the order that the database's collation gives to texts.
pub mod Laws
use langgraph_temporal_agent.Prelude.{◌∷◌, [], Bool, List, Option, if◌then◌else◌, filter}
use langgraph_temporal_agent.Text.{Text}
use langgraph_temporal_agent.Database.Schema.{Product, ProductCategory, Database}
use langgraph_temporal_agent.Database.Listing.{given, category_eq}

module _ (precedes : Text → Text → Bool) where
  unfoldable pub insert_by_sku : Product → List Product → List Product
  insert_by_sku p [] = p ∷ []
  insert_by_sku p (x ∷ ps) =
      let rest = insert_by_sku p ps in if precedes p.sku x.sku then p ∷ x ∷ ps else x ∷ rest

  -- `ORDER BY sku`
  unfoldable pub order_by_sku : List Product → List Product
  unfolding insert_by_sku
  order_by_sku [] = []
  order_by_sku (p ∷ ps) = insert_by_sku p (order_by_sku ps)

  unfoldable pub list_product_rows : Option ProductCategory → Database → List Product
  unfolding order_by_sku
  list_product_rows category db =
      order_by_sku (filter (λ p. given category (category_eq p.category)) db.products)
