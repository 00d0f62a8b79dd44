-- ===== src/Api/Requests.antt =====
-- The requests to list and to create orders, from the Authorization header on: the dependencies
-- `get_current_user` and `require_user` of app/auth.py run first, then the handler.
use langgraph_temporal_agent.Prelude.{
  ◌≡◌, refl, none, some, inl, false, inr, true, Option, Bool, ℕ, List, Bool-cases, ◌⊎◌, All, ◌∙◌,
  ap, if◌then◌else◌,
}
use langgraph_temporal_agent.Text.{Text}
use langgraph_temporal_agent.Auth.Token.{
  Decoded, get_current_user, IsVerified, get_current_user-IsVerified,
}
use langgraph_temporal_agent.Api.Orders.{list_orders, create_order, OrderCreate, OrderView}
use langgraph_temporal_agent.Auth.{CurrentUser, require_user, is_staff}
use langgraph_temporal_agent.Database.Schema.{OrderStatus, Database}
use langgraph_temporal_agent.Auth.Http.{returns, Response, ◌>>=◌, raises}
use langgraph_temporal_agent.Api.Orders.Customers.{
  list_orders_own, AddsFor, create_order_own, create_order_staff,
}
use langgraph_temporal_agent.Database.Invariant.{IsValid}

module _ {Key : Type 0} (signing_key : Text → Option Key) (jwt_decode : Text → Key → Decoded)
    (required : Bool) where
  -- `Depends(require_user)`
  unfoldable pub caller : Option Text → Response CurrentUser
  unfolding get_current_user require_user
  caller header = get_current_user signing_key jwt_decode header >>= require_user required

  unfoldable pub list_orders_request :
      Option Text → Option OrderStatus → Option Text → ℕ → Database → Response (List OrderView)
  unfolding caller list_orders
  list_orders_request header status customer_id limit db =
      caller header >>= λ user. list_orders status customer_id limit user db

  create_by : ℕ → OrderCreate → Response CurrentUser → Database → Response OrderView × Database
  unfolding create_order
  create_by now input (raises code detail) db = (raises code detail, db)
  create_by now input (returns user) db = create_order now input user db

  unfoldable pub create_order_request :
      Option Text → ℕ → OrderCreate → Database → Response OrderView × Database
  unfolding caller create_by
  create_order_request header now input db = create_by now input (caller header) db

  -- Who a caller is: the user of the token that the header carries, verified, or the development customer where no token is
  -- required.
  pub data IsCaller (header : Option Text) (user : CurrentUser) : Type 0 where
    verified : IsVerified signing_key jwt_decode header user → IsCaller header user
    developer : required ≡ false → require_user false none ≡ returns user → IsCaller header user

  caller-IsCaller :
      (header : Option Text) (user : CurrentUser)
      → caller header ≡ returns user
      → IsCaller header user
  unfolding caller require_user
  caller-IsCaller header user e = go (get_current_user signing_key jwt_decode header) refl e
    where
      dev : (b : Bool) → required ≡ b → require_user b none ≡ returns user → IsCaller header user
      dev true same h = cc
      dev false same h = developer same h

      same_user : (u : CurrentUser) → require_user required (some u) ≡ returns user → u ≡ user
      same_user u h = cc

      go :
          (r : Response (Option CurrentUser))
          → get_current_user signing_key jwt_decode header ≡ r
          → (r >>= require_user required) ≡ returns user
          → IsCaller header user
      go (raises code detail) found h = cc
      go (returns none) found h = dev required refl h
      go (returns (some u)) found h = verified (
          get_current_user-IsVerified signing_key jwt_decode header user
            (found ∙ ap (λ (x : CurrentUser). returns (some x)) (same_user u h)))

  -- What a caller may see of orders.
  abbrev pub IsEntitled : CurrentUser → List OrderView → Type 0
  IsEntitled user views =
      (is_staff user ≡ true)
      ⊎ ((own : Text) × (user.customer_id ≡ some own) × All (λ v. v.customer_id ≡ own) views)

  -- A request for orders that is answered comes from the user of the header's token, which was verified, or from
  -- the development customer where no token is required, and, unless this user is staff, every order
  -- in the answer is of the customer in the user's own claim, whatever the request names.
  pub list_orders_request-IsEntitled :
      (header : Option Text) (status : Option OrderStatus) (customer_id : Option Text) (limit : ℕ)
      (db : Database) (views : List OrderView)
      → list_orders_request header status customer_id limit db ≡ returns views
      → (user : CurrentUser) × IsCaller header user × IsEntitled user views
  unfolding list_orders_request
  list_orders_request-IsEntitled header status customer_id limit db views e =
      go (caller header) refl e
    where
      entitled :
          (user : CurrentUser)
          → list_orders status customer_id limit user db ≡ returns views
          → IsEntitled user views
      entitled user h = elim (Bool-cases (is_staff user)) [
        | inl staff ↦ inl staff
        | inr not_staff ↦ inr (list_orders_own status customer_id limit user db views not_staff h)
      ]

      go :
          (r : Response CurrentUser)
          → caller header ≡ r
          → (r >>= λ user. list_orders status customer_id limit user db) ≡ returns views
          → (user : CurrentUser) × IsCaller header user × IsEntitled user views
      go (raises code detail) found h = cc
      go (returns user) found h = (user, caller-IsCaller header user found, entitled user h)

  -- The customer for whom a caller may order.
  abbrev pub ordering_customer : CurrentUser → OrderCreate → Option Text
  ordering_customer user input = if is_staff user then some input.customer_id else user.customer_id

  -- A request to create an order adds nothing to valid tables, or one pending order; then its caller
  -- is the user of the header's token, which was verified, or the development customer where no token is
  -- required, and the order is for the customer that the request names where this user is staff, and
  -- else for the customer in the user's own claim.
  pub create_order_request-AddsFor :
      (header : Option Text) (now : ℕ) (input : OrderCreate) (db : Database)
      → IsValid db
      → ((create_order_request header now input db).1 ≡ db)
        ⊎ ((user : CurrentUser) × IsCaller header user
            × AddsFor now input
                (ordering_customer user input)
                db
                (create_order_request header now input db).1)
  unfolding create_order_request
  create_order_request-AddsFor header now input db v = go (caller header) refl
    where
      go :
          (r : Response CurrentUser)
          → caller header ≡ r
          → ((create_by now input r db).1 ≡ db)
            ⊎ ((user : CurrentUser) × IsCaller header user
                × AddsFor now input (ordering_customer user input) db (create_by now input r db).1)
      go (raises code detail) found = inl refl
      go (returns user) found =
          inr (user, caller-IsCaller header user found, added (is_staff user) refl)
        where
          added :
              (staff : Bool)
              → is_staff user ≡ staff
              → AddsFor now input
                  (if staff then some input.customer_id else user.customer_id)
                  db
                  (create_order now input user db).1
          added true staff = create_order_staff now input user db v staff
          added false not_staff = create_order_own now input user db v not_staff
