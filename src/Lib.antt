-- ===== src/Lib.antt =====
-- KIL, the Kinetic Integrity Layer: a model of the authorization core of the repository, and of the
-- journal that governs the lifecycle of its lab.
--
-- The parts, from the values up:
-- - Domain: the value records of src/kil/domain.py and the checks of their __post_init__, which
--   return a Result. Python's type tests hold by typing.
-- - Decimal and Decay: Python's Decimal as a sign, a coefficient and an exponent, with infinities
--   and NaN; its order is decided exactly. The decimal context of src/kil/decay.py is the record
--   Decimal.Arithmetic.Context, one operation for each that the code uses, which either returns a
--   decimal or raises a trapped signal; ContextLaws says what the code relies on, of finite operands only,
--   since NaN and infinities pass through an operation without a signal.
-- - Engine: decide of src/kil/engine.py. It calls Decay, and turns a trapped signal into a denial.
-- - QState: the claims, the payload and verify_q_state of src/kil/q_state.py. Base64, JSON and
--   Ed25519 are the fields of QState.Token.TokenLibrary; json.loads gives an object, another value, or an
--   exception, of which the code catches some and lets the others through.
-- - LiveAuthz: AuthorizationAdapter of src/kil/live_authz.py. It calls QState to verify a token and
--   Engine to decide, and Canonical for the digest of the decision, which can raise; SHA-256 is a field
--   of LiveAuthz.Defs.Platform.
-- - Gateway: ReferenceGateway of src/kil/reference_gateway.py. The records of its target are a state
--   that each call takes and returns.
-- - Evidence and Replay: the labels of src/kil/evidence.py and the paired replay of
--   src/kil/replay.py, which calls decide in both modes for each event of a scenario.
-- - Json and Scenario: the values of json.loads, and load_scenario of src/kil/scenario.py, which makes the
--   scenario that Replay takes. What urlsplit says of a text is a parameter.
-- - Canonical: src/kil/canonical.py. A value is a tree; normalize runs on the levels that are left, which
--   are MAX_DEPTH and one, so that its fuel is the program's own bound. The texts of json.loads hold no
--   surrogates, which canonical_json would refuse.
-- - Yaml: src/kil/v3b2_closed_yaml.py. The index into the lines is the list of those that are left. The loops
--   over mappings and sequences run on fuel, one more than the number of lines, since each takes a line
--   before it calls another. json.loads of a double-quoted scalar is a parameter.
-- - Files and Http: the append to a file, and the request and response that both services share.
-- - Authz: AuthorizationHttpApp of src/kil/ext_authz_http.py, which calls LiveAuthz, and Canonical for the
--   text of a record; its records in memory are a state that each call takes and returns, and the clocks
--   and the file system's answers are an argument of each call. Authz.Config is load_service_config; what the file system says of the path is the record
--   ConfigFile, and base64, Ed25519 and SHA-256 are the record KeyLibrary.
-- - Target: the ledger and the answers of src/kil/target_http.py. The text of a record is Canonical's; the
--   answers of the clock and the operating system to an append are an argument of each step.
--   Where no answer is left the write is taken to have failed.
-- - Journal: _event_family, _validate_event_details and _validate_history of
--   src/kil/v3b2_journal.py. The loop's variables are the record State.History; an event is a step
--   from one history to the next, and a refusal is the value of a JournalError. The profile binding
--   that src/kil/v3b2_profile_state.py checks is a parameter.
-- - Tests: concrete inputs, and the theorems at them. Tests.Arithmetic is a context of exact
--   operations that meets ContextLaws.
--
-- Exceptions are the constructors of Exception, without their messages. Sets are lists, read by
-- membership. Loops are structural recursion over their lists, but for those of Canonical and Yaml above.
-- The loops over the digits of a coefficient, of src/kil/q_state.py and src/kil/canonical.py, run on the
-- coefficient as fuel, which is at least the number of its digits.
--
-- Not modelled: weighted_diagonal_distance; issue_q_state and the writing of payloads; the journal's
-- files, locks and recovery commands; the loading of a ledger; the socket handlers of the two services
-- and their command lines; the run bundles, the cluster inventories and the tools of the lab, which read
-- and run what the core does not depend on.
pub mod Prelude
pub mod Decimal
pub mod Domain
pub mod Canonical
pub mod Decay
pub mod Engine
pub mod Json
pub mod QState
pub mod LiveAuthz
pub mod Gateway
pub mod Yaml
pub mod Evidence
pub mod Replay
pub mod Scenario
pub mod Files
pub mod Http
pub mod Target
pub mod Authz
pub mod Journal
pub mod Tests
