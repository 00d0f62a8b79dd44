-- ===== src/Auth/Scope.antt =====
-- A caller acts for the customer of the token's claim, unless the caller is staff.
use langgraph_temporal_agent.Prelude.{
  none, false, arith, refl, some, true, Option, ◌≡◌, ◌↔◌, any_mono, ◌&&◌,
}
use langgraph_temporal_agent.Auth.{
  scope_customer_id, require_staff, CurrentUser, require_approver, is_staff, is_approver, differs,
  scope_customer,
}
use langgraph_temporal_agent.Text.{Text}
use langgraph_temporal_agent.Auth.Http.{returns}

-- A caller who is not staff gets the customer of the token's claim or an error: never another
-- customer, never everyone, and an answer only to a request that names no customer or this one.
pub scope_customer_id_own :
    (user : CurrentUser) (requested scope : Option Text)
    → is_staff user ≡ false
    → scope_customer_id user requested ≡ returns scope
    → (own : Text) × (user.customer_id ≡ some own)
      × (scope ≡ some own)
      × (differs requested own ≡ false)
unfolding scope_customer_id
scope_customer_id_own user requested scope not_staff e =
    go user.customer_id refl (rw not_staff at e)
  where
    go :
        (claim : Option Text)
        → user.customer_id ≡ claim
        → scope_customer claim requested ≡ returns scope
        → (own : Text) × (user.customer_id ≡ some own)
          × (scope ≡ some own)
          × (differs requested own ≡ false)
    go none e h = cc
    go (some own) e h = (own, e, ground arith, ground arith)

-- Staff may act on whichever customer they name, or on all by naming none.
pub scope_customer_id_staff :
    (user : CurrentUser) (requested : Option Text)
    → is_staff user ≡ true
    → scope_customer_id user requested ≡ returns requested
unfolding scope_customer_id
scope_customer_id_staff user requested staff = rw staff

staff_of_approver : (user : CurrentUser) → is_approver user ≡ true → is_staff user ≡ true
unfolding is_staff is_approver
staff_of_approver user = any_mono _ _ user.roles (λ r h. ground (arith, h))

-- Every approver is staff, and the two role dependencies let exactly their callers through: staff
-- pass `require_staff`, and approvers pass `require_approver`.
pub role_dependencies :
    (user : CurrentUser)
    → ((is_approver user && is_staff user) ≡ is_approver user)
      × ((require_staff user ≡ returns user) ↔ (is_staff user ≡ true))
      × ((require_approver user ≡ returns user) ↔ (is_approver user ≡ true))
unfolding require_staff require_approver
role_dependencies user = (
  ground (arith, staff_of_approver user),
  (λ e. ground arith, λ e. rw e),
  (λ e. ground arith, λ e. rw e),
)
