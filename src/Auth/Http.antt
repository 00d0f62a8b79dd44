-- ===== src/Auth/Http.antt =====
-- What a dependency or a handler ends with: a value, or an HTTPException with its status code.
use langgraph_temporal_agent.Prelude.{ℕ}

-- The `detail` texts of the exceptions that app/ raises.
pub data Detail : Type 0 where
  cannot_verify_key token_expired wrong_audience wrong_issuer invalid_token : Detail
  expected_bearer authentication_required staff_role_required manager_role_required : Detail
  no_customer_id no_customer_claim not_your_customer customer_id_required product_not_found
        database_failure internal_error :
      Detail

pub data Response {ℓ} (A : Type ℓ) : Type ℓ where
  returns : A → Response A
  raises : (status_code : ℕ) → Detail → Response A

infixl 5 ◌>>=◌
abbrev pub ◌>>=◌ {ℓ κ} : {A : Type ℓ} {B : Type κ} → Response A → (A → Response B) → Response B
returns a >>= f = f a
raises code detail >>= f = raises code detail
