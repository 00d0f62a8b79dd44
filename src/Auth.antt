-- ===== src/Auth.antt =====
-- app/auth.py: who the caller is, and which customer's data the caller may act on.
pub mod Http
pub mod Scope
pub mod Token
use langgraph_temporal_agent.Prelude.{
  none, false, [], ◌∷◌, some, true, Bool, Option, List, any, if◌then◌else◌, not, ◌||◌,
}
use langgraph_temporal_agent.Text.{Text, codes, text_eq, upper}
use langgraph_temporal_agent.Auth.Http.{
  Response, returns, raises, authentication_required, staff_role_required, manager_role_required,
  no_customer_id, not_your_customer,
}

-- STAFF_ROLES and APPROVER_ROLES hold the names of realm roles.
abbrev pub role_customer : Text
role_customer = codes "customer"

abbrev pub role_sales : Text
role_sales = codes "sales_executive"

abbrev pub role_manager : Text
role_manager = codes "manager"

pub record CurrentUser : Type 0 where
  pub user_id : Text
  pub username : Text
  pub customer_id : Option Text
  pub roles : List Text

unfoldable pub is_staff : CurrentUser → Bool
is_staff u = any (λ r. text_eq r role_sales || text_eq r role_manager) u.roles

unfoldable pub is_approver : CurrentUser → Bool
is_approver u = any (λ r. text_eq r role_manager) u.roles

-- `_REQUIRED` decides whether an anonymous caller is refused or becomes the development customer.
unfoldable pub require_user : Bool → Option CurrentUser → Response CurrentUser
require_user required (some user) = returns user
require_user true none = raises 401 authentication_required
require_user false none = returns (record {
  user_id = codes "dev";
  username = codes "dev";
  customer_id = some (codes "CUS-001");
  roles = role_customer ∷ [];
})

unfoldable pub require_staff : CurrentUser → Response CurrentUser
unfolding is_staff
require_staff user = if is_staff user then returns user else raises 403 staff_role_required

unfoldable pub require_approver : CurrentUser → Response CurrentUser
unfolding is_approver
require_approver user = if is_approver user then returns user else raises 403 manager_role_required

-- The test `requested is not None and requested.upper() != user.customer_id.upper()`.
abbrev pub differs : Option Text → Text → Bool
differs none own = false
differs (some requested) own = not (text_eq (upper requested) (upper own))

scope_customer : Option Text → Option Text → Response (Option Text)
scope_customer none requested = raises 403 no_customer_id
scope_customer (some own) requested =
    if differs requested own then raises 403 not_your_customer else returns (some own)

unfoldable pub scope_customer_id : CurrentUser → Option Text → Response (Option Text)
unfolding is_staff scope_customer
scope_customer_id user requested =
    if is_staff user then returns requested else scope_customer user.customer_id requested
