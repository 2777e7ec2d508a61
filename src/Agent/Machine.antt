-- ===== src/Agent/Machine.antt =====
-- What the agent's service runs on: files, a clock, the Xray binary and the panel's client, and the
-- functions of package os that services/node-agent/internal/agent/service.go calls. A file operation
-- fails where the host says so; directories and temporary files are not kept. What is written stays
-- written when a later step fails.
pub mod Outcomes
pub mod Store
use lenker_panel.Base.{
  ℕ, ◌+◌, String, Bool, true, false, Option, none, some, List, [], ◌∷◌, Result, ok, err, Time, ℤ,
  is_zero, str_eq, if◌then◌else◌,
}
use lenker_panel.Json.{Fields}
use lenker_panel.Json.Wire.{wire_fields}
use lenker_panel.Agent.Model.{
  Status, RuntimeEvent, ConfigRevision, AgentError, config_artifact_write,
}
use lenker_panel.Agent.Runtime.{RuntimeProcessResult}
use lenker_panel.Agent.Service.{Service, append_runtime_event}

-- What a file holds: the text that json.MarshalIndent makes of a map, the text of another JSON value
-- (but null), a text that is not JSON, one of white space, or nothing.
pub data Body : Type 0 where
  document : Fields → Body
  other_value malformed blank empty : Body

-- json.Valid
abbrev pub is_json : Body → Bool
is_json (document m) = true
is_json other_value = true
is_json _ = false

-- json.Unmarshal into a map[string]any
abbrev pub unmarshal : Body → Option Fields
unmarshal (document m) = some (wire_fields m)
unmarshal _ = none

abbrev pub Files : Type 0
Files = List (String × Body)

abbrev pub look_up : String → Files → Option Body
look_up path [] = none
look_up path ((p, body) ∷ files) = if str_eq p path then some body else look_up path files

abbrev pub with_file : String → Body → Files → Files
with_file path body [] = (path, body) ∷ []
with_file path body ((p, b) ∷ files) =
    if str_eq p path then (p, body) ∷ files else (p, b) ∷ with_file path body files

-- model.go: ConfigRevisionReport
pub record ConfigRevisionReport : Type 0 where
  pub status : String
  pub applied_at : Time
  pub failed_at : Time
  pub error_message : String
  pub active_revision : ℤ
  pub runtime_mode : String
  pub runtime_process_mode : String
  pub runtime_process_state : String
  pub runtime_desired_state : String
  pub runtime_state : String
  pub last_dry_run_status : String
  pub last_runtime_attempt : String
  pub last_runtime_prepared : ℤ
  pub last_runtime_at : Time
  pub last_runtime_error : String
  pub last_validation_status : String
  pub last_validation_error : String
  pub last_validation_at : Time
  pub last_applied_revision : ℤ
  pub active_config_path : String
  pub runtime_events : List RuntimeEvent
  pub sent_at : Time

-- What answers the agent. `fails n` is whether the n-th file operation fails, `clock n` the n-th answer
-- of time.Now. `xray` is the validator, if the service has one: the reason of its refusal, if it
-- refuses. `process_mode` and `started` are the supervisor's mode and the answer of its runner,
-- `cancelled` the error of a cancelled context. `pending` and `reported` answer the two requests.
pub record Host : Type 0 where
  pub fails : ℕ → Bool
  pub clock : ℕ → Time
  pub join : String → String → String
  pub time_text : Time → String
  pub parse_time : String → Option Time
  pub xray : Option (Fields → Option String)
  pub process_mode : String
  pub started : Result (AgentError × String) RuntimeProcessResult
  pub cancelled : Option AgentError
  pub pending : Result AgentError (Option ConfigRevision)
  pub reported : ConfigRevisionReport → Option AgentError

-- `operations` and `readings` count the file operations and the readings of the clock; `reports` are
-- the reports that have been sent, with the identifiers of their revisions, the last one first.
pub record World : Type 0 where
  pub service : Service
  pub files : Files
  pub operations : ℕ
  pub readings : ℕ
  pub reports : List (String × ConfigRevisionReport)

abbrev pub Action {ℓ} : Type ℓ → Type ℓ
Action A = World → Result AgentError A × World

module _ {ℓ} {A : Type ℓ} where
  unfoldable pub pure : A → Action A
  pure a w = (ok a, w)

  unfoldable pub raise : AgentError → Action A
  raise e w = (err e, w)

  -- what an error result says
  unfoldable pub returned : Result AgentError A → Action A
  returned r w = (r, w)

  unfoldable pub gets : (World → A) → Action A
  gets f w = (ok (f w), w)

  -- `if err := …; err != nil { … }`, with what it does before it returns the error
  unfoldable pub on_error : Action A → (AgentError → World → World) → Action A
  on_error m handle w =
      let (r, w') = m w in elim r [ ok a ↦ (ok a, w') | err e ↦ (err e, handle e w') ]

infixl 5 ◌>>=◌ ◌>>◌
unfoldable pub ◌>>=◌ {ℓ κ} : {A : Type ℓ} {B : Type κ} → Action A → (A → Action B) → Action B
◌>>=◌ m f w = let (r, w') = m w in elim r [ ok a ↦ f a w' | err e ↦ (err e, w') ]

unfoldable pub ◌>>◌ {ℓ κ} : {A : Type ℓ} {B : Type κ} → Action A → Action B → Action B
unfolding ◌>>=◌
m >> k = m >>= λ _. k

unfoldable pub modify : (World → World) → Action (Unit {0})
modify f w = (ok tt, f w)

abbrev pub with_status : (Status → Status) → World → World
with_status f w = record w { service = record w.service { status = f w.service.status } }

-- the clock is read only where it is needed
abbrev pub counted : Bool → World → World
counted needed w = record w { readings = if needed then w.readings + 1 else w.readings }

-- what os.ReadFile says
pub data Read : Type 0 where
  contents : Body → Read
  not_exist unreadable : Read

abbrev pub found : Option Body → Read
found none = not_exist
found (some body) = contents body

module _ (host : Host) where
  -- time.Now().UTC()
  unfoldable pub time_now : Action Time
  time_now w = (ok (host.clock w.readings), record w { readings = w.readings + 1 })

  -- one file operation that has no effect of its own, its error wrapped in ErrConfigArtifactWrite
  unfoldable pub operation : Action (Unit {0})
  operation w = (
    if host.fails w.operations then err config_artifact_write else ok tt,
    record w { operations = w.operations + 1 },
  )

  -- os.CreateTemp, Write, Chmod, Close and os.Rename; the file changes by the last one
  unfoldable pub write_file_atomic : String → Body → Action (Unit {0})
  write_file_atomic path body = do
    operation
    operation
    operation
    operation
    operation
    modify (λ w. record w { files = with_file path body w.files })

  unfoldable pub read_file : String → Action Read
  read_file path w = (
    ok (if host.fails w.operations then unreadable else found (look_up path w.files)),
    record w { operations = w.operations + 1 },
  )

  unfoldable pub append_event : RuntimeEvent → World → World
  unfolding append_runtime_event
  append_event event w =
      let now = host.clock w.readings in
      with_status (append_runtime_event now event) (counted (is_zero event.at) w)
