-- ===== src/Contract/Payload.antt =====
-- The agent's check of a bundle (services/node-agent/internal/agent/service.go,
-- validateRenderedConfigPayload) on a bundle that has travelled as JSON.
use mathlib.Core.Option
use lenker_panel.Base.{◌≡◌, refl, Option, some, none, inl, inr, ◌>>◌, require, Result}
use lenker_panel.Json.{Fields}
use lenker_panel.Json.Wire.{wire_fields, get-wire_fields, HasExact}
use lenker_panel.Json.Decoded.{
  as_text-wire, as_object-wire, as_array-wire, number_as_int-wire, IsExact-get, object-cases,
}
use lenker_panel.Agent.Model.{ConfigRevision, AgentError}
use lenker_panel.Agent.Verify.{validate_rendered_config_payload}
use lenker_panel.Contract.Decoding.{gate_decoded}

ruleset seen = (get-wire_fields, as_text-wire, as_object-wire, as_array-wire)

-- Whether a value is there does not depend on its form.
require_mapped :
    {A B C : Type 0} (f : A → B) (o : Option A) (e : AgentError) (k : Result AgentError C)
    → (require (Option.map f o) e >> k) ≡ (require o e >> k)
require_mapped f none e k = refl
require_mapped f (some a) e k = refl

-- The agent's verdict on a bundle is the same before and after decoding, if its integers are exact.
pub payload_decoded :
    (r : ConfigRevision) (bundle : Fields)
    → HasExact bundle
    → validate_rendered_config_payload (record r { bundle = some (wire_fields bundle) })
      ≡ validate_rendered_config_payload (record r { bundle = some bundle })
unfolding validate_rendered_config_payload
payload_decoded r bundle h =
    simp (seen, require_mapped, number_as_int-wire _ (IsExact-get "revision_number" bundle h))
      (elim (object-cases "config" bundle h) [
        | inl e ↦ simp (e)
        | inr (config, e, hc) ↦ simp (e, gate_decoded config hc)
      ])
