-- ===== src/Panel/Render/Accepts/Inbound.antt =====
-- The panel's precheck of a rendered inbound.
use lenker_panel.Base.{
  ℕ, ◌+◌, ◌≡◌, refl, Bool, true, false, List, [], ◌∷◌, pos, is_pos, All, arith, ok, is_blank,
  append,
}
use lenker_panel.Json
use lenker_panel.Json.{Value, array, Fields, fields, object, text, elems-items}
use lenker_panel.Panel.Validate
use lenker_panel.Panel.Render.{
  RealityConfig, with_defaults, SubscriptionInput, sorted_subscription_inputs,
  render_access_entries, render_clients, insert_input,
}
use lenker_panel.Panel.Render.Payload.{render_reality, render_inbound}

abbrev pub HasId : SubscriptionInput → Type 0
HasId s = is_blank s.subscription_id ≡ false

client_accepted :
    (s : SubscriptionInput)
    → HasId s
    → Validate.validate_client (
        fields (
          ("id", text s.subscription_id)
          ∷ ("email", text (append "subscription:" s.subscription_id))
          ∷ ("flow", text "xtls-rprx-vision")
          ∷ ("level", Json.int (pos 0))
          ∷ []))
      ≡ ok tt
unfolding Validate.validate_client is_blank
client_accepted s h = rw h refl

clients_accepted :
    (n : ℕ) (inputs : List SubscriptionInput)
    → All HasId inputs
    → Validate.validate_clients n (render_clients (render_access_entries inputs)) ≡ ok tt
unfolding Validate.validate_clients render_clients render_access_entries Validate.wrap_client
clients_accepted n [] h = refl
clients_accepted n (s ∷ r) h = rw (client_accepted s h.0) (clients_accepted (n + 1) r h.1)

insert-HasId :
    (x : SubscriptionInput) (r : List SubscriptionInput)
    → HasId x
    → All HasId r
    → All HasId (insert_input x r)
unfolding insert_input
insert-HasId x [] h k = (h, tt)
insert-HasId x (y ∷ r) h k = ground (arith, insert-HasId x r h k.1)

pub sorted-HasId :
    (inputs : List SubscriptionInput)
    → All HasId inputs
    → All HasId (sorted_subscription_inputs inputs)
unfolding sorted_subscription_inputs
sorted-HasId [] h = tt
sorted-HasId (x ∷ r) h = insert-HasId x _ h.0 (sorted-HasId r h.1)

pub with_defaults-is_pos :
    (reality : RealityConfig) → is_pos (with_defaults reality).vless_port ≡ true
unfolding with_defaults
with_defaults-is_pos reality = ground arith

reality_accepted :
    (reality : RealityConfig)
    → is_blank reality.dest ≡ false
    → is_blank reality.private_key ≡ false
    → Validate.validate_reality (render_reality reality) ≡ ok tt
unfolding Validate.validate_reality render_reality
reality_accepted reality d k = rw (d, k) refl

pub inbound_accepted :
    (reality : RealityConfig) (sniff : Bool) (inputs : List SubscriptionInput)
    → All HasId inputs
    → is_pos reality.vless_port ≡ true
    → is_blank reality.dest ≡ false
    → is_blank reality.private_key ≡ false
    → Validate.validate_inbound (render_inbound reality (render_access_entries inputs) sniff)
      ≡ ok "vless-reality-in"
unfolding Validate.validate_inbound render_inbound is_blank
inbound_accepted reality sniff inputs h p d k =
    rw (p, elems-items, clients_accepted 0 inputs h, reality_accepted reality d k) refl
