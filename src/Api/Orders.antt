-- ===== src/Api/Orders.antt =====
-- `list_orders`, `create_order` and `order_from_row` of app/main.py.
pub mod Customers
use langgraph_temporal_agent.Database.Sql.{err, ok, Result}
use langgraph_temporal_agent.Prelude.{some, none, ℕ, Option, List, map}
use langgraph_temporal_agent.Text.{Text}
use langgraph_temporal_agent.Database.Orders.{format_order_id}
use langgraph_temporal_agent.Auth.{scope_customer_id, CurrentUser}
use langgraph_temporal_agent.Database.Listing.{create_order_row, OrderRow, list_order_rows}
use langgraph_temporal_agent.Database.Schema.{ProductCategory, OrderStatus, Database}
use langgraph_temporal_agent.Auth.Http.{
  ◌>>=◌, Response, raises, database_failure, customer_id_required, returns, product_not_found,
}

pub record ProductView : Type 0 where
  pub sku : Text
  pub name : Text
  pub category : ProductCategory
  pub price : ℕ

pub record OrderView : Type 0 where
  pub id : Text
  pub customer_id : Text
  pub product : ProductView
  pub quantity : ℕ
  pub total : ℕ
  pub status : OrderStatus
  pub created_at : ℕ

unfoldable pub order_from_row : OrderRow → OrderView
unfolding format_order_id
order_from_row row = record {
  id = format_order_id row.id;
  customer_id = row.customer_id;
  product = record { sku = row.sku; name = row.name; category = row.category; price = row.price };
  quantity = row.quantity;
  total = row.total;
  status = row.status;
  created_at = row.created_at;
}

-- `limit` is between 1 and 200: FastAPI answers 422 otherwise, before the handler.
unfoldable pub list_orders :
    Option OrderStatus → Option Text → ℕ → CurrentUser → Database → Response (List OrderView)
unfolding scope_customer_id list_order_rows
list_orders status customer_id limit user db = do
  scope ← scope_customer_id user customer_id
  returns (map order_from_row (list_order_rows status limit scope db))

pub record OrderCreate : Type 0 where
  pub customer_id : Text
  pub product_sku : Text
  pub quantity : ℕ

created_response : Result (Option OrderRow) → Response OrderView
created_response (err e) = raises 500 database_failure
created_response (ok none) = raises 404 product_not_found
created_response (ok (some row)) = returns (order_from_row row)

pub create_scoped : ℕ → OrderCreate → Option Text → Database → Response OrderView × Database
unfolding created_response create_order_row
create_scoped now input none db = (raises 400 customer_id_required, db)
create_scoped now input (some customer_id) db =
    let (r, db') = create_order_row now customer_id input.product_sku input.quantity db in
    (created_response r, db')

pub create_for : ℕ → OrderCreate → Response (Option Text) → Database → Response OrderView × Database
unfolding create_scoped
create_for now input (raises code detail) db = (raises code detail, db)
create_for now input (returns scope) db = create_scoped now input scope db

unfoldable pub create_order :
    ℕ → OrderCreate → CurrentUser → Database → Response OrderView × Database
unfolding create_for scope_customer_id
create_order now input user db =
    create_for now input (scope_customer_id user (some input.customer_id)) db
