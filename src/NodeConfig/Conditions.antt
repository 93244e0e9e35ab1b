-- ===== src/NodeConfig/Conditions.antt =====
-- What the parsers accept, and what the three operators of a condition have to do with each other.
use flowforge.Base.{
  ◌≤◌, ◌≡◌, ◌⊎◌, ◌≢◌, inl, inr, String, Bool, true, false, not, refl, Option, none, some, arith,
  str_eq, eq_iff, Error, ok, err, Result-cases, Bool-cases,
}
use flowforge.NodeConfig.{
  Strings, WorkflowTaskConfig, WorkflowConditionConfig, Json, is_outside,
  decode_workflow_node_config, check_task_config, parse_workflow_task_config, find_field,
  apply_operator, evaluate_workflow_condition,
}

module _ {V : Type 0} (strings : Strings) (json : Json V) where
  -- A parsed task configuration has a queue of 1 to 64 bytes, a priority up to 9, up to 99 retries and
  -- a timeout up to a day, and a payload that is empty or valid JSON.
  pub parse_workflow_task_config-bounds :
      (config : Option String) {c : WorkflowTaskConfig}
      → parse_workflow_task_config strings json config ≡ ok c
      → (c.queue ≢ "")
        × (strings.byte_length c.queue ≤ 64)
        × (c.priority ≤ 9)
        × (c.max_retries ≤ 99)
        × (c.timeout_seconds ≤ 86400)
        × ((c.payload ≡ "") ⊎ (json.is_valid_json c.payload ≡ true))
  unfolding parse_workflow_task_config check_task_config is_outside
  parse_workflow_task_config-bounds config {c = c} h =
      elim (Result-cases (decode_workflow_node_config json.decode_task config)) [
        | inl (e, failed) ↦ absurd (ground arith)
        | inr (raw, decoded) ↦
            ground (arith, eq_iff (strings.trim_space raw.queue) "", eq_iff raw.payload "")
      ]

  abbrev with_operator : WorkflowConditionConfig V → String → WorkflowConditionConfig V
  with_operator c operator = record c { operator = operator }

  abbrev target : WorkflowConditionConfig V → V → Option V
  target c root =
      find_field strings json (strings.split (strings.trim_prefix c.field "input.") ".") root

  abbrev is_some : Option V → Bool
  is_some none = false
  is_some (some v) = true

  abbrev is_equal : WorkflowConditionConfig V → Option V → Bool
  is_equal c none = false
  is_equal c (some v) = json.deep_equal v c.value

  agree :
      (c : WorkflowConditionConfig V) (found : Option V)
      → (apply_operator strings json (with_operator c "exists") found ≡ ok (is_some found))
        × (apply_operator strings json (with_operator c "equals") found ≡ ok (is_equal c found))
        × (apply_operator strings json (with_operator c "not_equals") found
            ≡ ok (not (is_equal c found)))
        × (is_equal c found ≡ true → is_some found ≡ true)
  unfolding apply_operator
  agree c none = (refl, refl, refl, λ h. h)
  agree c (some v) = (refl, refl, refl, λ h. refl)

  -- the root that an input stands for
  abbrev pub IsRoot : String → V → Type 0
  IsRoot input root =
      ((input ≡ "") × (root ≡ json.empty_object))
      ⊎ ((input ≢ "") × (json.unmarshal input ≡ ok root))

  -- On an input that is empty or JSON, the three operators answer, and agree: `not_equals` is the
  -- negation of `equals`, and `equals` holds only where `exists` does. On an input that is not empty
  -- and not JSON, every operator fails, with the decoder's error.
  pub evaluate_workflow_condition_operators :
      (c : WorkflowConditionConfig V) (input : String)
      → ((root : V) × (present equal : Bool) × IsRoot input root
          × (evaluate_workflow_condition strings json (with_operator c "exists") input ≡ ok present)
          × (evaluate_workflow_condition strings json (with_operator c "equals") input ≡ ok equal)
          × (evaluate_workflow_condition strings json (with_operator c "not_equals") input
              ≡ ok (not equal))
          × (equal ≡ true → present ≡ true))
        ⊎ ((e : Error) × (input ≢ "")
            × (json.unmarshal input ≡ err e)
            × ((operator : String)
                → evaluate_workflow_condition strings json (with_operator c operator) input
                  ≡ err e))
  unfolding evaluate_workflow_condition apply_operator
  evaluate_workflow_condition_operators c input = elim (Bool-cases (str_eq input "")) [
    | inl e ↦
        let found = target c json.empty_object in
        let (x, y, z, w) = agree c found in
        inl (
          json.empty_object,
          is_some found,
          is_equal c found,
          inl ((eq_iff input "").0 e, refl),
          rw (e, evaluate_workflow_condition) x,
          rw (e, evaluate_workflow_condition) y,
          rw (e, evaluate_workflow_condition) z,
          w,
        )
    | inr e ↦ elim (Result-cases (json.unmarshal input)) [
      | inl (failure, f) ↦ inr (
        failure,
        ground (arith, eq_iff input ""),
        f,
        λ operator. rw (e, f, evaluate_workflow_condition) refl,
      )
      | inr (root, f) ↦
          let found = target c root in
          let (x, y, z, w) = agree c found in
          inl (
            root,
            is_some found,
            is_equal c found,
            inr (ground (arith, eq_iff input ""), f),
            rw (e, f, evaluate_workflow_condition) x,
            rw (e, f, evaluate_workflow_condition) y,
            rw (e, f, evaluate_workflow_condition) z,
            w,
          )
    ]
  ]
