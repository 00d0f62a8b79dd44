-- ===== src/Examples/Orders.antt =====
-- Orders and preferences in the sample database.
use langgraph_temporal_agent.Prelude.{none, some, true, false, ◌≡◌, ◌≢◌, ap}
use langgraph_temporal_agent.Text.{codes, text_eq}
use langgraph_temporal_agent.Database.Schema.{Database}
use langgraph_temporal_agent.Database.Orders.{cancel_order_row}
use langgraph_temporal_agent.Database.Invariant.{IsValid}
use langgraph_temporal_agent.Database.Cancellation.{
  Cancelled, cancel_order_row-Cancelled, cancel_order_row-IsValid, cancel_order_row_again,
  was_cancelled,
}
use langgraph_temporal_agent.Database.Privacy.{orders_of}
use langgraph_temporal_agent.Database.Creation.{Created, create_order_row-Created}
use langgraph_temporal_agent.Database.Listing.{create_order_row, list_order_rows}
use langgraph_temporal_agent.Examples.Sample.{alice, bob, shop, shop-IsValid}
use langgraph_temporal_agent.Database.Listing.Listed.{IsListing, list_order_rows-IsListing}

bob-ne-alice : bob ≢ alice
unfolding text_eq
bob-ne-alice = λ e. let same : true ≡ false = ap (text_eq bob) e in cc

cancel_order_row-Cancelled_example : Cancelled 3 alice shop (cancel_order_row 3 alice shop)
cancel_order_row-Cancelled_example = cancel_order_row-Cancelled 3 alice shop

cancel_order_row-IsValid_example : IsValid (cancel_order_row 3 alice shop).1
cancel_order_row-IsValid_example = cancel_order_row-IsValid 3 alice shop shop-IsValid

cancel_order_row_again_example :
    let first = cancel_order_row 3 alice shop in
    let second = cancel_order_row 3 alice first.1 in
    (second.1 ≡ first.1) × (was_cancelled second.0 ≡ false)
cancel_order_row_again_example = cancel_order_row_again 3 alice shop

-- The shop without bob's orders.
abbrev alice_only : Database
alice_only = record shop { orders = orders_of alice shop }

create_order_row-Created_example :
    Created 9 alice (codes "LAP-001") 2 shop (create_order_row 9 alice (codes "LAP-001") 2 shop)
create_order_row-Created_example =
    create_order_row-Created 9 alice (codes "LAP-001") 2 shop shop-IsValid

list_order_rows-IsListing_example :
    IsListing shop none (some alice) 2 (list_order_rows none 2 (some alice) shop)
list_order_rows-IsListing_example = list_order_rows-IsListing none 2 (some alice) shop
