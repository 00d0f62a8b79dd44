-- ===== src/Examples/Starts.antt =====
-- Starts of the application and of a run on the sample database.
use langgraph_temporal_agent.Database.Sql.{ok}
use langgraph_temporal_agent.Database.Seeding.Placed.{IsSeeded, initialize_database-IsSeeded}
use langgraph_temporal_agent.Database.Seeding.Again.{initialize_database_again}
use langgraph_temporal_agent.Database.Seeding.{initialize_database}
use langgraph_temporal_agent.Examples.Sample.{shop, shop-IsValid}
use langgraph_temporal_agent.Prelude.{◌≡◌, ◌∷◌, [], arith, ℕ, Bool, leb, count, ◌&&◌, some}
use langgraph_temporal_agent.Text.{Text}
use langgraph_temporal_agent.Database.Products.Laws.{IsCollation, IsBySku, list_product_rows_lem}
use langgraph_temporal_agent.Database.Schema.{Product, laptop}
use langgraph_temporal_agent.Database.Products.{list_product_rows}
use langgraph_temporal_agent.Database.Listing.{given, category_eq}

initialize_database-IsSeeded_example : IsSeeded shop (initialize_database shop)
initialize_database-IsSeeded_example = initialize_database-IsSeeded shop shop-IsValid

initialize_database_again_example :
    initialize_database (initialize_database shop).1 ≡ (ok tt, (initialize_database shop).1)
initialize_database_again_example = initialize_database_again shop shop-IsValid

-- Texts in the order of their first characters.
abbrev code_of : Text → ℕ
code_of [] = 0
code_of (c ∷ s) = c

abbrev by_first : Text → Text → Bool
by_first a b = leb (code_of a) (code_of b)

by_first-IsCollation : IsCollation by_first (some laptop)
by_first-IsCollation = record {
  total = λ a b h. ground (arith, h);
  transitive = λ a b c h k. ground (arith, h, k);
}

abbrev is_dear : Product → Bool
is_dear p = leb 20000 p.price

list_product_rows_lem_example :
    IsBySku by_first (some laptop) (list_product_rows by_first (some laptop) shop)
    × (count is_dear (list_product_rows by_first (some laptop) shop)
        ≡ count (λ p. given (some laptop) (category_eq p.category) && is_dear p) shop.products)
list_product_rows_lem_example =
    list_product_rows_lem by_first (some laptop) by_first-IsCollation is_dear shop
