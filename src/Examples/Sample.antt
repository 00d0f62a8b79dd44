-- ===== src/Examples/Sample.antt =====
-- A small valid database, with orders of two customers.
use langgraph_temporal_agent.Prelude.{ℕ, [], ◌∷◌, refl, arith}
use langgraph_temporal_agent.Text.{Text, codes, text_eq}
use langgraph_temporal_agent.Database.Schema.{
  Database, Order, OrderStatus, Product, laptop, printer, paid, shipped, delivered, refunded,
}
use langgraph_temporal_agent.Database.Invariant.{IsValid}
use langgraph_temporal_agent.Database.Refunds.{refund_idempotency_key}

abbrev pub alice : Text
alice = codes "CUS-001"

abbrev pub bob : Text
bob = codes "CUS-002"

abbrev pub everyday_laptop : Product
everyday_laptop = record {
  sku = codes "LAP-001";
  name = codes "Everyday Laptop 14";
  category = laptop;
  price = 74900;
}

abbrev pub home_printer : Product
home_printer = record {
  sku = codes "PRN-002";
  name = codes "Home Inkjet Printer";
  category = printer;
  price = 14900;
}

abbrev pub order_of : ℕ → Text → Product → OrderStatus → Order
order_of id customer_id p status = record {
  id = id;
  customer_id = customer_id;
  product_sku = p.sku;
  quantity = 1;
  status = status;
  created_at = 0;
}

-- Orders 1 to 3 are alice's: a small and a large one that are delivered, and one that is paid.
-- Orders 4 and 5 are bob's, and 5 is refunded.
unfoldable pub shop : Database
shop = record {
  products = everyday_laptop ∷ home_printer ∷ [];
  orders =
      order_of 1 alice home_printer delivered
      ∷ order_of 2 alice everyday_laptop delivered
      ∷ order_of 3 alice home_printer paid
      ∷ order_of 4 bob everyday_laptop shipped
      ∷ order_of 5 bob home_printer refunded
      ∷ [];
  user_memories = [];
  refunds =
      record {
        order_id = 5;
        amount = 14900;
        reason = codes "broken";
        idempotency_key = refund_idempotency_key 5;
      }
      ∷ [];
  next_order_id = 6;
}

pub shop-IsValid : IsValid shop
unfolding shop text_eq
shop-IsValid = record {
  priced = (omega arith, (omega arith, tt));
  orders_distinct = (refl, (refl, (refl, (refl, (refl, tt)))));
  refunds_distinct = (refl, tt);
  orders_sound = (
    record {
      product = home_printer;
      stocked = refl;
      at_least = omega arith;
      at_most = omega arith;
      drawn = omega arith;
    },
    (
      record {
        product = everyday_laptop;
        stocked = refl;
        at_least = omega arith;
        at_most = omega arith;
        drawn = omega arith;
      },
      (
        record {
          product = home_printer;
          stocked = refl;
          at_least = omega arith;
          at_most = omega arith;
          drawn = omega arith;
        },
        (
          record {
            product = everyday_laptop;
            stocked = refl;
            at_least = omega arith;
            at_most = omega arith;
            drawn = omega arith;
          },
          (
            record {
              product = home_printer;
              stocked = refl;
              at_least = omega arith;
              at_most = omega arith;
              drawn = omega arith;
            },
            tt,
          ),
        ),
      ),
    ),
  );
  refunds_backed = (
    record {
      order = order_of 5 bob home_printer refunded;
      product = home_printer;
      found = refl;
      stocked = refl;
      closed = refl;
      worth = refl;
      keyed = refl;
    },
    tt,
  );
}
