-- ===== src/Auth/Token.antt =====
-- From the Authorization header to a CurrentUser. PyJWT and the JWKS client are parameters.
use langgraph_temporal_agent.Prelude.{
  ◌∷◌, none, some, [], Option, List, Bool, if◌then◌else◌, not, ◌||◌, inr, refl, inl, ◌≡◌,
  Bool-cases, false, ◌++◌, ◌≢◌,
}
use langgraph_temporal_agent.Text.{Text, partition, text_eq, lower, codes, is_empty}
use langgraph_temporal_agent.Auth.{CurrentUser}
use langgraph_temporal_agent.Auth.Http.{
  ◌>>=◌, Response, returns, raises, token_expired, cannot_verify_key, wrong_audience, wrong_issuer,
  invalid_token, expected_bearer,
}
use langgraph_temporal_agent.Text.Partition.{Parts, partition-Parts, unsplit, split}
use langgraph_temporal_agent.Text.Equality.{text_eq_iff}

-- The claims of a token that has been decoded; `sub` is among the required ones.
pub record Claims : Type 0 where
  pub sub : Text
  pub preferred_username : Option Text
  pub customer_id : Option Text
  pub realm_access : Option (Option (List Text))

-- What `jwt.decode` ends with: the claims, or one of the exceptions that `_decode` tells apart.
pub data Decoded : Type 0 where
  claims : Claims → Decoded
  expired_signature invalid_audience invalid_issuer invalid : Decoded

abbrev pub realm_roles : Option (Option (List Text)) → List Text
realm_roles (some (some roles)) = roles
realm_roles _ = []

abbrev pub or_empty : Option Text → Text
or_empty none = []
or_empty (some t) = t

-- `claims.get("customer_id") or None`: an empty claim is no claim.
abbrev pub non_empty : Option Text → Option Text
non_empty (some []) = none
non_empty t = t

-- `_user_from_claims`
unfoldable pub user_from_claims : Claims → CurrentUser
user_from_claims c = record {
  user_id = c.sub;
  username = or_empty c.preferred_username;
  customer_id = non_empty c.customer_id;
  roles = realm_roles c.realm_access;
}

abbrev pub decoded : Decoded → Response Claims
decoded (claims c) = returns c
decoded expired_signature = raises 401 token_expired
decoded invalid_audience = raises 401 wrong_audience
decoded invalid_issuer = raises 401 wrong_issuer
decoded invalid = raises 401 invalid_token

-- `signing_key` is the JWKS client, `none` where it raises; `jwt_decode` is `jwt.decode` with the
-- algorithm, audience, issuer and required claims that `_decode` passes.
module _ {Key : Type 0} (signing_key : Text → Option Key) (jwt_decode : Text → Key → Decoded) where
  decode_with : Text → Option Key → Response Claims
  decode_with token none = raises 401 cannot_verify_key
  decode_with token (some key) = decoded (jwt_decode token key)

  -- `_decode`
  unfoldable pub decode : Text → Response Claims
  unfolding decode_with
  decode token = decode_with token (signing_key token)

  user_of_token : Text × Bool × Text → Response (Option CurrentUser)
  unfolding decode user_from_claims
  user_of_token (scheme, _, token) =
      if not (text_eq (lower scheme) (codes "bearer")) || is_empty token
      then raises 401 expected_bearer
      else (decode token >>= λ c. returns (some (user_from_claims c)))

  unfoldable pub get_current_user : Option Text → Response (Option CurrentUser)
  unfolding user_of_token partition
  get_current_user none = returns none
  get_current_user (some []) = returns none
  get_current_user (some (c ∷ header)) = user_of_token (partition 32 (c ∷ header))

  -- The header carries the token that stands for `user`: after the word "bearer", in any case, and a
  -- space. The token has a signing key, and is accepted under it.
  pub record IsVerified (header : Option Text) (user : CurrentUser) : Type 0 where
    pub scheme : Text
    pub token : Text
    pub key : Key
    pub claim : Claims
    pub sent : header ≡ some (scheme ++ 32 ∷ token)
    pub bearer : lower scheme ≡ codes "bearer"
    pub present : token ≢ []
    pub signed : signing_key token ≡ some key
    pub accepted : jwt_decode token key ≡ claims claim
    pub same : user ≡ user_from_claims claim

  module _ (user : CurrentUser) (scheme token : Text) (bearer : lower scheme ≡ codes "bearer")
      (present : token ≢ []) where
    accepted-IsVerified :
        (key : Key) (d : Decoded)
        → signing_key token ≡ some key
        → jwt_decode token key ≡ d
        → (decoded d >>= λ c. returns (some (user_from_claims c))) ≡ returns (some user)
        → IsVerified (some (scheme ++ 32 ∷ token)) user
    accepted-IsVerified key (claims c) signed accepted e = record {
      scheme = scheme;
      token = token;
      key = key;
      claim = c;
      sent = refl;
      bearer = bearer;
      present = present;
      signed = signed;
      accepted = accepted;
      same = cc;
    }
    accepted-IsVerified key _ signed accepted e = cc

    signed-IsVerified :
        (key : Option Key)
        → signing_key token ≡ key
        → (decode_with token key >>= λ c. returns (some (user_from_claims c))) ≡ returns (some user)
        → IsVerified (some (scheme ++ 32 ∷ token)) user
    unfolding decode_with
    signed-IsVerified none signed e = cc
    signed-IsVerified (some key) signed e =
        accepted-IsVerified key (jwt_decode token key) signed refl e

  not_empty : (token : Text) → is_empty token ≡ false → token ≢ []
  not_empty [] h = λ e. cc
  not_empty (c ∷ token) h = λ e. cc

  user_of_token-IsVerified :
      (user : CurrentUser) (text : Text) (parts : Text × Bool × Text)
      → Parts 32 text parts
      → user_of_token parts ≡ returns (some user)
      → IsVerified (some text) user
  unfolding user_of_token decode
  user_of_token-IsVerified user text parts (unsplit _) e =
      elim (Bool-cases (text_eq (lower text) (codes "bearer"))) [
        | inl named ↦ cc (rw named at e)
        | inr unnamed ↦ cc (rw unnamed at e)
      ]
  user_of_token-IsVerified user text parts (split scheme token all) e =
      elim (Bool-cases (text_eq (lower scheme) (codes "bearer"))) [
        | inr unnamed ↦ cc (rw unnamed at e)
        | inl named ↦ elim (Bool-cases (is_empty token)) [
          | inl blank ↦ cc (rw (named, blank) at e)
          | inr full ↦
              signed-IsVerified user scheme token
                ((text_eq_iff (lower scheme) (codes "bearer")).0 named) (not_empty token full)
                (signing_key token) refl (rw (named, full) at e)
        ]
      ]

  -- The caller of a request is anonymous, or the Authorization header is "Bearer" in any case, a space
  -- and a token, which has a signing key and is accepted by `jwt.decode` under that key, and the
  -- caller is built from the claims of this token.
  pub get_current_user-IsVerified :
      (header : Option Text) (user : CurrentUser)
      → get_current_user header ≡ returns (some user)
      → IsVerified header user
  unfolding get_current_user
  get_current_user-IsVerified none user e = cc
  get_current_user-IsVerified (some []) user e = cc
  get_current_user-IsVerified (some (c ∷ header)) user e =
      user_of_token-IsVerified user (c ∷ header) (partition 32 (c ∷ header))
        (partition-Parts 32 (c ∷ header)) e
