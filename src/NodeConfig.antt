-- ===== src/NodeConfig.antt =====
-- internal/usecase/workflow_node_config.go: what the configuration of a node may hold, and a condition
-- over the input of an execution. The packages strings and encoding/json are the parameters.
pub mod Conditions
use flowforge.Base.{
  ℕ, ◌<◌, ◌≡◌, String, Bool, true, false, ◌&&◌, ◌||◌, not, Option, none, some, List, [], ◌∷◌, ltb,
  leb, ◌==◌, if◌then◌else◌, str_eq, Error, other, Result, ok, err, lt_int64, is_negative, is_none,
}
use flowforge.Workflow.{WorkflowNode}

-- the functions of the package strings
pub record Strings : Type 0 where
  pub trim_space : String → String
  pub byte_length : String → ℕ
  pub has_prefix : String → String → Bool
  pub trim_prefix : String → String → String
  pub split : String → String → List String

pub record WorkflowTaskConfig : Type 0 where
  pub queue : String
  pub payload : String
  pub priority : ℕ  -- int64
  pub max_retries : ℕ  -- int64
  pub timeout_seconds : ℕ  -- int64

pub record WorkflowWebhookConfig : Type 0 where
  pub endpoint_id : String
  pub payload : String

pub record WorkflowConditionConfig (V : Type 0) : Type 0 where
  pub field : String
  pub operator : String
  pub value : V

-- encoding/json, with V for the values that it decodes. The decoders refuse unknown fields, as the
-- source configures them; `as_object` is the type assertion to map[string]any.
pub record Json (V : Type 0) : Type 0 where
  pub decode_task : String → Result WorkflowTaskConfig
  pub decode_webhook : String → Result WorkflowWebhookConfig
  pub decode_delay : String → Result ℕ
  pub decode_condition : String → Result (WorkflowConditionConfig V)
  pub decode_branch : String → Result (Option Bool)
  pub has_value : String → Bool
  pub is_valid_json : String → Bool
  pub is_null : String → Bool
  pub unmarshal : String → Result V
  pub empty_object : V
  pub as_object : V → Option (String → Option V)
  pub deep_equal : V → V → Bool

unfoldable pub decode_workflow_node_config :
    {A : Type 0} → (String → Result A) → Option String → Result A
decode_workflow_node_config decode none = err (other "config must be an object")
decode_workflow_node_config decode (some text) = decode text

-- `value < 0 || value > bound`
unfoldable pub is_outside : (value bound : ℕ) → Bool
is_outside value bound = is_negative value || ltb bound value

abbrev pub max_workflow_delay_seconds : ℕ
max_workflow_delay_seconds = 604800

module _ {V : Type 0} (strings : Strings) (json : Json V) where
  unfoldable pub check_task_config : WorkflowTaskConfig → Result WorkflowTaskConfig
  unfolding is_outside
  check_task_config raw =
      let c = record raw { queue = strings.trim_space raw.queue } in
      if str_eq c.queue "" || ltb 64 (strings.byte_length c.queue)
      then err (other "queue must be between 1 and 64 characters")
      else if is_outside c.priority 9
      then err (other "priority must be between 0 and 9")
      else if is_outside c.max_retries 99
      then err (other "max_retries must be between 0 and 99")
      else if is_outside c.timeout_seconds 86400
      then err (other "timeout_seconds must be between 0 and 86400")
      else if not (str_eq c.payload "") && not (json.is_valid_json c.payload)
      then err (other "payload must be valid JSON")
      else ok c

  unfoldable pub parse_workflow_task_config : Option String → Result WorkflowTaskConfig
  parse_workflow_task_config config = elim (decode_workflow_node_config json.decode_task config) [
    | err e ↦ err e
    | ok raw ↦ check_task_config raw
  ]

  unfoldable pub parse_workflow_webhook_config : Option String → Result WorkflowWebhookConfig
  parse_workflow_webhook_config config =
      elim (decode_workflow_node_config json.decode_webhook config) [
        | err e ↦ err e
        | ok raw ↦
            let c = record raw { endpoint_id = strings.trim_space raw.endpoint_id } in
            if str_eq c.endpoint_id ""
            then err (other "endpoint_id is required")
            else if not (str_eq c.payload "") && not (json.is_valid_json c.payload)
            then err (other "payload must be valid JSON")
            else ok c
      ]

  unfoldable pub parse_workflow_delay_config : Option String → Result ℕ
  unfolding is_outside
  parse_workflow_delay_config config = elim (decode_workflow_node_config json.decode_delay config) [
    | err e ↦ err e
    | ok seconds ↦
        if is_outside seconds max_workflow_delay_seconds
        then err (other "duration_seconds must be between 0 and 604800")
        else ok seconds
  ]

  unfoldable pub parse_workflow_condition_config :
      Option String → Result (WorkflowConditionConfig V)
  parse_workflow_condition_config config =
      elim (decode_workflow_node_config json.decode_condition config) [
        | err e ↦ err e
        | ok raw ↦
            let c = record raw {
              field = strings.trim_space raw.field;
              operator = strings.trim_space raw.operator;
            } in
            if not (strings.has_prefix c.field "input.") || leb (strings.byte_length c.field) 6
            then err (other "field must start with input.")
            else if str_eq c.operator "equals" || str_eq c.operator "not_equals"
            then (elim config [
              | none ↦ err (other "value is required for equals and not_equals")
              | some text ↦
                  if json.has_value text
                  then ok c
                  else err (other "value is required for equals and not_equals")
            ])
            else if str_eq c.operator "exists"
            then ok c
            else err (other "operator must be equals, not_equals, or exists")
      ]

  -- nil if the edge has no condition; a condition without a branch is an error
  unfoldable pub parse_workflow_branch : String → Result (Option Bool)
  parse_workflow_branch condition =
      if str_eq condition "" || json.is_null condition
      then ok none
      else elim (json.decode_branch condition) [
        | err e ↦ err (other "condition edge must contain a boolean branch")
        | ok none ↦ err (other "condition edge must contain a boolean branch")
        | ok (some branch) ↦ ok (some branch)
      ]

  -- the loop over the parts of the field: the value that they lead to
  unfoldable pub find_field : List String → V → Option V
  find_field [] current = some current
  find_field (part ∷ parts) current = elim (json.as_object current) [
    | none ↦ none
    | some entries ↦ elim (entries part) [ none ↦ none | some next ↦ find_field parts next ]
  ]

  unfoldable pub apply_operator : WorkflowConditionConfig V → Option V → Result Bool
  apply_operator c found =
      let equal : Bool = elim found [ none ↦ false | some v ↦ json.deep_equal v c.value ] in
      if str_eq c.operator "exists"
      then ok (not (is_none found))
      else if str_eq c.operator "equals"
      then ok equal
      else if str_eq c.operator "not_equals"
      then ok (not equal)
      else err (other "unsupported condition operator")

  unfoldable pub evaluate_workflow_condition : WorkflowConditionConfig V → String → Result Bool
  unfolding find_field apply_operator
  evaluate_workflow_condition c input =
      elim (if str_eq input "" then ok json.empty_object else json.unmarshal input) [
        | err e ↦ err e
        | ok root ↦
            apply_operator c
              (find_field (strings.split (strings.trim_prefix c.field "input.") ".") root)
      ]
