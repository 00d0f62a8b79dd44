-- ===== src/Api/Catalog.antt =====
-- `list_products`, `health`, `auth_config` and `me` of app/main.py.
use langgraph_temporal_agent.Prelude.{
  [], some, none, ◌∷◌, ℕ, Bool, Option, List, map, if◌then◌else◌, not, any,
}
use langgraph_temporal_agent.Database.Schema.{Product, Database, ProductCategory}
use langgraph_temporal_agent.Database.Products.{list_product_rows}
use langgraph_temporal_agent.Database.Listing.{database_counts}
use langgraph_temporal_agent.Text.{Text, lower, codes, text_eq}
use langgraph_temporal_agent.Auth.{is_staff, is_approver, CurrentUser}
use langgraph_temporal_agent.Api.Orders.{ProductView}
use langgraph_temporal_agent.Settings.{getenv}

-- `Product(**row)`
abbrev pub product_view : Product → ProductView
product_view p = record { sku = p.sku; name = p.name; category = p.category; price = p.price }

unfoldable pub list_products :
    (Text → Text → Bool) → Option ProductCategory → Database → List ProductView
unfolding list_product_rows
list_products precedes category db = map product_view (list_product_rows precedes category db)

-- The status is "ok" whenever there is an answer.
pub record Health : Type 0 where
  pub orders : ℕ
  pub products : ℕ

unfoldable pub health : Database → Health
unfolding database_counts
health db =
    let (order_count, product_count) = database_counts db in
    record { orders = order_count; products = product_count }

pub record OidcSettings : Type 0 where
  pub issuer : Text
  pub audience : Text
  pub client_id : Text
  pub required : Bool

-- `_ISSUER`, `_AUDIENCE` and `_REQUIRED` are read from the environment.
abbrev pub oidc_issuer : (Text → Option Text) → Text
oidc_issuer env =
    getenv env (codes "OIDC_ISSUER") (codes "http://keycloak.agentops.local/realms/agentops")

abbrev pub oidc_audience : (Text → Option Text) → Text
oidc_audience env = getenv env (codes "OIDC_AUDIENCE") (codes "agentops-app")

unfoldable pub oidc_required : (Text → Option Text) → Bool
unfolding lower
oidc_required env = not (
    any (text_eq (lower (getenv env (codes "OIDC_REQUIRED") (codes "true"))))
      (codes "false" ∷ codes "0" ∷ codes "no" ∷ []))

unfoldable pub oidc_settings : (Text → Option Text) → OidcSettings
unfolding oidc_required
oidc_settings env = record {
  issuer = oidc_issuer env;
  audience = oidc_audience env;
  client_id = oidc_audience env;
  required = oidc_required env;
}

unfoldable pub auth_config : (Text → Option Text) → OidcSettings
unfolding oidc_settings
auth_config env = oidc_settings env

pub data Me : Type 0 where
  anonymous : Me
  authenticated :
      (user_id username : Text) (customer_id : Option Text) (roles : List Text)
      (is_staff is_approver : Bool)
      → Me

unfoldable pub insert_role : (Text → Text → Bool) → Text → List Text → List Text
insert_role precedes r [] = r ∷ []
insert_role precedes r (x ∷ rs) =
    let rest = insert_role precedes r rs in if precedes r x then r ∷ x ∷ rs else x ∷ rest

-- `sorted(user.roles)`; `precedes` is Python's order of texts.
unfoldable pub sorted_roles : (Text → Text → Bool) → List Text → List Text
unfolding insert_role
sorted_roles precedes [] = []
sorted_roles precedes (r ∷ rs) = insert_role precedes r (sorted_roles precedes rs)

unfoldable pub me : (Text → Text → Bool) → Option CurrentUser → Me
unfolding sorted_roles is_staff is_approver
me precedes none = anonymous
me precedes (some user) =
    authenticated user.user_id user.username user.customer_id (sorted_roles precedes user.roles)
      (is_staff user) (is_approver user)
