-- ===== src/Database/Schema.antt =====
-- The rows of the tables of `initialize_database`, and the enumerations of app/main.py that their
-- CHECK constraints repeat.
use langgraph_temporal_agent.Prelude.{ℕ, List}
use langgraph_temporal_agent.Text.{Text}

pub data ProductCategory : Type 0 where
  laptop printer spare_part : ProductCategory

pub data OrderStatus : Type 0 where
  pending paid processing shipped delivered cancelled refunded : OrderStatus

unfoldable pub ProductCategory-discrete : Discrete ProductCategory
ProductCategory-discrete = hlevel

unfoldable pub OrderStatus-discrete : Discrete OrderStatus
OrderStatus-discrete = hlevel

pub record Product : Type 0 where
  pub sku : Text
  pub name : Text
  pub category : ProductCategory
  pub price : ℕ

pub record Order : Type 0 where
  pub id : ℕ
  pub customer_id : Text
  pub product_sku : Text
  pub quantity : ℕ
  pub status : OrderStatus
  pub created_at : ℕ

pub record UserMemory : Type 0 where
  pub user_id : Text
  pub memory_key : Text
  pub memory_value : Text
  pub created_at : ℕ
  pub updated_at : ℕ

pub record Refund : Type 0 where
  pub order_id : ℕ
  pub amount : ℕ
  pub reason : Text
  pub idempotency_key : Text

-- `next_order_id` is the state of the identity sequence of orders.id.
pub record Database : Type 0 where
  pub products : List Product
  pub orders : List Order
  pub user_memories : List UserMemory
  pub refunds : List Refund
  pub next_order_id : ℕ
