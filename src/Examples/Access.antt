-- ===== src/Examples/Access.antt =====
-- Callers of the API and of the agent's tools.
use langgraph_temporal_agent.Prelude.{
  ℕ, [], ◌∷◌, none, some, refl, ◌≡◌, Option, map, suc, true, ◌⊎◌,
}
use langgraph_temporal_agent.Text.{Text, codes, text_eq, upper, lower, partition}
use langgraph_temporal_agent.Database.Orders.{format_order_id}
use langgraph_temporal_agent.Database.Listing.{list_order_rows}
use langgraph_temporal_agent.Auth.{CurrentUser, is_staff, role_customer, role_manager}
use langgraph_temporal_agent.Auth.Token.{
  Claims, Decoded, claims, get_current_user, IsVerified, get_current_user-IsVerified,
}
use langgraph_temporal_agent.Api.Orders.{list_orders, order_from_row, OrderCreate}
use langgraph_temporal_agent.Api.Orders.Customers.{AddsFor}
use langgraph_temporal_agent.Tools.OrderId.{normalized, match_order_id}
use langgraph_temporal_agent.Tools.OrderId.Laws.{match_order_id-format_order_id}
use langgraph_temporal_agent.Tools.Actions.{WorkflowKind, cancel_order}
use langgraph_temporal_agent.Tools.Actions.Guarded.{Asked, cancel_order-Asked}
use langgraph_temporal_agent.Workflows.Activities.{OrderActionInput}
use langgraph_temporal_agent.Examples.Sample.{alice, shop, shop-IsValid}
use langgraph_temporal_agent.Api.Requests.{
  list_orders_request, create_order_request, IsCaller, IsEntitled, create_order_request-AddsFor,
  list_orders_request-IsEntitled, ordering_customer,
}

abbrev alice_claims : Claims
alice_claims = record {
  sub = codes "u-1";
  preferred_username = some (codes "alice");
  customer_id = some alice;
  realm_access = some (some (role_customer ∷ []));
}

abbrev alice_user : CurrentUser
alice_user = record {
  user_id = codes "u-1";
  username = codes "alice";
  customer_id = some alice;
  roles = role_customer ∷ [];
}

abbrev manager_user : CurrentUser
manager_user = record {
  user_id = codes "u-2";
  username = codes "mia";
  customer_id = none;
  roles = role_manager ∷ [];
}

-- Every token is signed with key 7 and decodes to alice's claims.
abbrev key_7 : Text → Option ℕ
key_7 _ = some 7

abbrev decode_alice : Text → ℕ → Decoded
decode_alice _ _ = claims alice_claims

get_current_user-IsVerified_example :
    IsVerified key_7 decode_alice (some (codes "Bearer abc")) alice_user
unfolding get_current_user text_eq lower partition
get_current_user-IsVerified_example =
    get_current_user-IsVerified key_7 decode_alice (some (codes "Bearer abc")) alice_user refl

abbrev laptop_for_alice : OrderCreate
laptop_for_alice = record { customer_id = alice; product_sku = codes "LAP-001"; quantity = 1 }

match_order_id-format_order_id_example : match_order_id (normalized (format_order_id 7)) ≡ some 7
match_order_id-format_order_id_example = match_order_id-format_order_id 7

-- A server that gives every run the same id, and counts its starts.
abbrev counting : WorkflowKind → OrderActionInput → Text → ℕ → Text × ℕ
counting kind input id s = (codes "run", suc s)

cancel_order-Asked_example :
    Asked counting
      (codes " ord-003 ")
      alice
      shop
      0
      (cancel_order counting (codes " ord-003 ") alice shop 0)
cancel_order-Asked_example = cancel_order-Asked counting (codes " ord-003 ") alice shop 0

list_orders_request-IsEntitled_example :
    (user : CurrentUser) × IsCaller key_7 decode_alice true (some (codes "Bearer abc")) user
    × IsEntitled key_7 decode_alice true user
        (map order_from_row (list_order_rows none 50 (some alice) shop))
unfolding list_orders_request get_current_user list_orders is_staff text_eq upper lower partition
list_orders_request-IsEntitled_example =
    list_orders_request-IsEntitled key_7 decode_alice true (some (codes "Bearer abc")) none none 50
      shop (map order_from_row (list_order_rows none 50 (some alice) shop)) refl

create_order_request-AddsFor_example :
    let after =
      (create_order_request key_7 decode_alice true
        (some (codes "Bearer abc"))
        9
        laptop_for_alice
        shop).1 in
    (after ≡ shop)
    ⊎ ((user : CurrentUser) × IsCaller key_7 decode_alice true (some (codes "Bearer abc")) user
        × AddsFor 9 laptop_for_alice
            (ordering_customer key_7 decode_alice true user laptop_for_alice)
            shop
            after)
create_order_request-AddsFor_example =
    create_order_request-AddsFor key_7 decode_alice true (some (codes "Bearer abc")) 9
      laptop_for_alice shop shop-IsValid
