-- ===== src/Lib.antt =====
-- Verification of Lenker: the control plane services/panel-api and the agent services/node-agent that
-- runs on each node.
--
-- The panel keeps nodes, subscriptions and configuration revisions in PostgreSQL. An administrator
-- creates a node with a bootstrap token; the agent registers with it, sends heartbeats, fetches the
-- pending revision of its node, checks it, applies it and reports. A revision is an Xray configuration
-- that the panel renders from the subscriptions, prechecks, hashes and signs; the agent has its own
-- copy of the checks. The two programs meet only in JSON documents.
--
-- The files:
--   Base     numbers, lists, text, results, times: the language and its standard library.
--   Json     decoded documents and the type assertions on them. Json.Numbers is float64, Json.Wire is
--            a document after json.Marshal and json.Unmarshal into `any`, in which integers are
--            float64; Json.Decoded compares the assertions before and after.
--   Crypto   SHA-256 and HMAC as parameters, with the lengths of their results and the fact that
--            json.Marshal writes a whole float64 as the integer; encoding/hex is modelled.
--   Agent    services/node-agent/internal/agent: Model is model.go, Xray is xray_validator.go, Runtime is
--            runtime.go. The other files are service.go: Verify has the checks on a fetched revision,
--            Service the state and the operations on it that touch no file (Trail has its events),
--            Machine what the service runs on, Staging and Persisting the writing of files, Applying
--            and Polling the way of a revision, Restoring the start of a service. Supervisor is
--            xray_supervisor.go as a step relation between what its threads do.
--   Panel    services/panel-api/internal: Render is configrender/xray.go, Validate is
--            configrender/validate.go, Bundle is configbundle/bundle.go, Nodes is storage/nodes.go
--            (Lifecycle, Bootstrap, Heartbeat, Revisions with Create and Report, Normalize),
--            Subscriptions is storage/subscriptions.go (Lifecycle, Access with its Uri, AccessTokens,
--            Handoff; Calls puts the calls one after another, Effects and Moves say what each does),
--            Devices is devices/repository.go and devices/service.go, Traffic is traffic/ (Quotas,
--            Recording, Usage).
--   Contract what holds between panel and agent: the two copies of the checks against each other,
--            what decoding does to them, and the way of a revision from the renderer to the agent.
--   Tests    concrete databases and documents.
--
-- How the code is modelled:
--   A function with an error result returns Result, from Base.Errors. A transaction is a function from
--   the tables to a result with the tables after it, so a failure leaves them as they were. SQL is
--   written as functions on lists of rows, with the CHECK and UNIQUE constraints of migrations/ that
--   the statements can meet; a row is looked up by its key. Random bytes, the database's identifiers
--   and the time are arguments. A time is its nanoseconds since Go's zero time, in UTC.
--   A map[string]any is the list of its entries. A map's order does not show: json.Marshal sorts keys,
--   and the hash is a parameter that takes the map itself.
--   Integers are unbounded; where a bound matters, as in a float64, it is a hypothesis. PostgreSQL's
--   INTEGER and its syntax of UUIDs are not modelled. Loops are structural recursion, so nothing runs
--   on fuel but the printing of decimals, whose fuel is the number itself.
--   The agent's actions pass a world on: the service, the files, the reports sent and how often the
--   clock and the files have been asked. The host says which file operation fails, what the clock
--   shows, what the Xray binary, the process runner and the panel answer; it is a parameter, so a
--   theorem holds for every sequence of faults. Directories, temporary files and the text of a JSON
--   file are not kept: a file holds a map, or a text of another kind.
--
-- Not modelled: the HTTP handlers and their JSON of requests, the agent's collection of traffic, the
-- storage of plans, users and administrators, profiles, routing rules, templates, WARP, settings,
-- audit, the web panel, scripts.
pub mod Base
pub mod Json
pub mod Crypto
pub mod Agent
pub mod Panel
pub mod Contract
pub mod Tests
