-- ===== src/Contract/Rollback.antt =====
-- RenderRollbackPayload (services/panel-api/internal/configrender/xray.go) keeps a payload deployable.
use mathlib.Core.Option
use lenker_panel.Base.{
  ◌≡◌, refl, ap, ◌∙◌, String, some, true, false, List, [], ◌∷◌, map, All, Bool-cases, inl, inr, ◌≤◌,
  ◌^◌, str_eq,
}
use lenker_panel.Json.{Value, Fields, get, as_object, as_array, as_text, number_as_int}
use lenker_panel.Json.Numbers.{magnitude}
use lenker_panel.Json.Wire.{wire, wire_fields, wire_fields_twice, get-wire_fields, HasExact}
use lenker_panel.Json.Decoded.{
  as_text-wire, as_object-wire, as_array-wire, IsExact-get, HasExact-of_object,
}
use lenker_panel.Json.Gate.{contains}
use lenker_panel.Agent.Verify.{is_operation}
use lenker_panel.Json.Put.{get-put_same, get-put_other, HasExact-put, wire_fields-HasExact}
use lenker_panel.Panel.Render.Rollback.{RollbackInput, clone_payload, render_rollback_payload}
use lenker_panel.Contract.Decoding.{gate_decoded}
use lenker_panel.Contract.Deployable.{IsDeployable, IsCommon-decoded}

-- The numbers that the rollback writes into the payload are below the limit of float64.
pub record HasExactNumbers (input : RollbackInput) : Type 0 where
  pub revision_number : magnitude input.revision_number ≤ 2 ^ 53
  pub rollback_target_revision : magnitude input.rollback_target_revision ≤ 2 ^ 53
  pub source_revision_number : magnitude input.source_revision_number ≤ 2 ^ 53

abbrev written : List String
written =
    "config_text" ∷ "config_kind" ∷ "source_revision_number" ∷ "source_revision_id"
    ∷ "operation_kind" ∷ "rollback_target_revision" ∷ "revision_number" ∷ []

absent :
    (key : String) (l : List String) → contains l key ≡ false → All (λ k. str_eq k key ≡ false) l
absent key [] h = tt
absent key (k ∷ l) h = elim (Bool-cases (str_eq k key)) [
  | inl e ↦ let t : true ≡ false = rw e at h in cc
  | inr e ↦ (e, absent key l (rw e at h))
]

-- A key that a rollback does not write has the decoded value of the target.
kept :
    (key : String) (p : Fields) (input : RollbackInput)
    → contains written key ≡ false
    → get key (render_rollback_payload (wire_fields p) input) ≡ wire (get key p)
unfolding render_rollback_payload clone_payload
kept key p input h =
    let (a, (b, (c, (d, (e, (f, (g, _))))))) = absent key written h in
    get-put_other "config_text" key _ _ a
    ∙ get-put_other "config_kind" key _ _ b
    ∙ get-put_other "source_revision_number" key _ _ c
    ∙ get-put_other "source_revision_id" key _ _ d
    ∙ get-put_other "operation_kind" key _ _ e
    ∙ get-put_other "rollback_target_revision" key _ _ f
    ∙ get-put_other "revision_number" key _ _ g
    ∙ ap (get key) (wire_fields_twice p)
    ∙ get-wire_fields key p

module _ (p : Fields) (input : RollbackInput) where
  abbrev rolled : Fields
  rolled = render_rollback_payload (wire_fields p) input

  kept_text :
      (key s : String)
      → contains written key ≡ false
      → as_text (get key p) ≡ some s
      → as_text (get key rolled) ≡ some s
  kept_text key s h e = ap as_text (kept key p input h) ∙ as_text-wire _ ∙ e

  kept_object :
      (key : String) (m : Fields)
      → contains written key ≡ false
      → as_object (get key p) ≡ some m
      → as_object (get key rolled) ≡ some (wire_fields m)
  kept_object key m h e =
      ap as_object (kept key p input h) ∙ as_object-wire _ ∙ ap (Option.map wire_fields) e

  kept_array :
      (key : String) (vs : List Value)
      → contains written key ≡ false
      → as_array (get key p) ≡ some vs
      → as_array (get key rolled) ≡ some (map wire vs)
  kept_array key vs h e =
      ap as_array (kept key p input h) ∙ as_array-wire _ ∙ ap (Option.map (map wire)) e

  -- The payload that a rollback renders has its own number.
  pub rolled_number : number_as_int (get "revision_number" rolled) ≡ some input.revision_number
  unfolding render_rollback_payload
  rolled_number = simp (get-put_other, get-put_same)

  rolled-HasExact : HasExactNumbers input → HasExact rolled
  unfolding render_rollback_payload clone_payload
  rolled-HasExact h = HasExact-put "config_text" _ _ tt (
      HasExact-put "config_kind" _ _ tt (
        HasExact-put "source_revision_number" _ _ h.source_revision_number (
          HasExact-put "source_revision_id" _ _ tt (
            HasExact-put "operation_kind" _ _ tt (
              HasExact-put "rollback_target_revision" _ _ h.rollback_target_revision (
                HasExact-put "revision_number" _ _ h.revision_number
                  (wire_fields-HasExact (wire_fields p))))))))

  rolled_config_kind : as_text (get "config_kind" rolled) ≡ some "xray-config-compatible-skeleton"
  unfolding render_rollback_payload
  rolled_config_kind = simp (get-put_other, get-put_same)

  rolled_kind : as_text (get "operation_kind" rolled) ≡ some "rollback"
  unfolding render_rollback_payload
  rolled_kind = simp (get-put_other, get-put_same)

  -- A rollback to a deployable payload, read from its row, renders a deployable payload.
  pub rolled-IsDeployable : IsDeployable p → HasExactNumbers input → IsDeployable rolled
  unfolding is_operation
  rolled-IsDeployable d h = record {
    exact = rolled-HasExact h;
    schema = kept_text "schema_version" _ refl d.schema;
    generator = kept_text "generated_by" _ refl d.generator;
    protocol = kept_text "protocol" _ refl d.protocol;
    core = kept_text "core_type" _ refl d.core;
    config_kind = rolled_config_kind;
    kind = "rollback";
    kind_eq = rolled_kind;
    kind_ok = refl;
    node = wire_fields d.node;
    node_eq = kept_object "node" d.node refl d.node_eq;
    transport = wire_fields d.transport;
    transport_eq = kept_object "transport" d.transport refl d.transport_eq;
    inputs = map wire d.inputs;
    inputs_eq = kept_array "subscription_inputs" d.inputs refl d.inputs_eq;
    entries = map wire d.entries;
    entries_eq = kept_array "access_entries" d.entries refl d.entries_eq;
    config = wire_fields d.config;
    config_eq = kept_object "config" d.config refl d.config_eq;
    common = IsCommon-decoded d.config d.common;
    accepted =
        gate_decoded d.config (
          HasExact-of_object (get "config" p) d.config (IsExact-get "config" p d.exact) d.config_eq)
        ∙ d.accepted;
  }
