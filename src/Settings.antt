-- ===== src/Settings.antt =====
-- The settings of the models: app/model_factory.py, and `nemo_guardrails_enabled` and
-- `nemo_model_configuration` of app/nemo_guardrails.py. `env` is the process environment. A getter
-- with `lru_cache` runs once for each role; here it is that run.
use langgraph_temporal_agent.Prelude.{none, ◌∷◌, some, [], Option, ◌++◌, Bool, if◌then◌else◌, ◌||◌}
use langgraph_temporal_agent.Text.{Text, upper, strip, lower, codes, text_eq, is_empty}
use langgraph_temporal_agent.Agent.{order_tracking, order_actions, infrastructure, AgentName}

-- `os.getenv(name, default)`: a variable that is set to the empty text is not replaced.
abbrev pub getenv : (Text → Option Text) → Text → Text → Text
getenv env name default = elim (env name) [ none ↦ default | some value ↦ value ]

pub data ModelRole : Type 0 where
  supervisor_role order_tracking_role order_actions_role infrastructure_role : ModelRole

unfoldable pub role_name : ModelRole → Text
role_name supervisor_role = codes "supervisor"
role_name order_tracking_role = codes "order_tracking"
role_name order_actions_role = codes "order_actions"
role_name infrastructure_role = codes "infrastructure"

-- `_role_prefix`
unfoldable pub role_prefix : ModelRole → Text
unfolding role_name upper
role_prefix role = upper (role_name role)

pub record ModelConfiguration : Type 0 where
  pub role : ModelRole
  pub model_id : Text

-- `none` is the RuntimeError.
abbrev pub configured : ModelRole → Text → Option ModelConfiguration
configured role [] = none
configured role (c ∷ model_id) = some (record { role = role; model_id = c ∷ model_id })

unfoldable pub model_configuration : (Text → Option Text) → ModelRole → Option ModelConfiguration
unfolding role_prefix strip
model_configuration env role =
    configured role (
      strip
        (getenv env (role_prefix role ++ codes "_MODEL_ID") (getenv env (codes "LLM_MODEL") [])))

-- The arguments of ChatOpenAI that vary.
pub record ChatModel : Type 0 where
  pub base_url : Text
  pub api_key : Text
  pub model : Text
  pub agent_role : ModelRole

-- `not base_url or not api_key` for values that may be None, which `getenv` gives as the empty text.
abbrev pub chat_model : ModelConfiguration → Text → Text → Option ChatModel
chat_model configuration [] api_key = none
chat_model configuration (b ∷ base_url) [] = none
chat_model configuration (b ∷ base_url) (k ∷ api_key) = some (record {
  base_url = b ∷ base_url;
  api_key = k ∷ api_key;
  model = configuration.model_id;
  agent_role = configuration.role;
})

unfoldable pub get_chat_model : (Text → Option Text) → ModelRole → Option ChatModel
unfolding model_configuration
get_chat_model env role = elim (model_configuration env role) [
  | none ↦ none
  | some configuration ↦
      chat_model configuration
        (getenv env (role_prefix role ++ codes "_MODEL_BASE_URL")
          (getenv env (codes "LLM_BASE_URL") []))
        (getenv env (role_prefix role ++ codes "_MODEL_API_KEY")
          (getenv env (codes "LLM_API_KEY") []))
]

unfoldable pub nemo_guardrails_enabled : (Text → Option Text) → Bool
unfolding lower
nemo_guardrails_enabled env =
    text_eq (lower (getenv env (codes "NEMO_GUARDRAILS_ENABLED") (codes "false"))) (codes "true")

pub record NemoConfiguration : Type 0 where
  pub model : Text
  pub api_key_env_var : Text
  pub base_url : Text

-- `not os.getenv(name)`
abbrev pub is_unset : (Text → Option Text) → Text → Bool
is_unset env name = is_empty (getenv env name [])

unfoldable pub nemo_model_configuration : (Text → Option Text) → Option NemoConfiguration
unfolding strip
nemo_model_configuration env =
    let model = strip (getenv env (codes "NEMO_LLM_MODEL") (getenv env (codes "LLM_MODEL") [])) in
    let base_url =
      strip (getenv env (codes "NEMO_LLM_BASE_URL") (getenv env (codes "LLM_BASE_URL") [])) in
    let api_key_env_var =
      if is_unset env (codes "NEMO_LLM_API_KEY")
      then codes "LLM_API_KEY"
      else codes "NEMO_LLM_API_KEY" in
    if is_empty model || is_empty base_url || is_unset env api_key_env_var
    then none
    else some (record { model = model; api_key_env_var = api_key_env_var; base_url = base_url })

-- The model that a node of the graph asks: the supervisor's, or the specialist's of
-- SPECIALIST_MODEL_GETTERS, each bound to its own tools.
abbrev pub role_of : Option AgentName → ModelRole
role_of none = supervisor_role
role_of (some order_tracking) = order_tracking_role
role_of (some order_actions) = order_actions_role
role_of (some infrastructure) = infrastructure_role

unfoldable pub agent_model : (Text → Option Text) → Option AgentName → Option ChatModel
unfolding get_chat_model
agent_model env who = get_chat_model env (role_of who)
