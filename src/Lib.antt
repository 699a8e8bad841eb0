-- ===== src/Lib.antt =====
-- SARA-OMEGA: the governance core of the platform, and the agents that gate a release.
--
-- An action of the platform passes one boundary before it has an effect. The boundary asks the
-- governance kernel for a decision, which signs what it decides; the decision is written to a
-- hash-chained audit ledger before it is acted on. Beside that path stand the guards of a request,
-- the bridge that deploys an exact commit, the commands to devices and their telemetry, the chain of
-- signed VOICE events with its gates, the accounts with their OAuth tokens, the ledger of signed
-- verdicts, the jobs that speak a text, the allowlist of models, and two agents that review the evidence for a release.
--
-- Which file models which part:
--   Kernel.antt and Kernel/: sara_unified/governance/unified_kernel.py. Model has its dataclasses;
--     Insurance is `InsuranceCoverageValidator`, Risk `CounterfactualRiskEngine`, Gates the gates
--     of `SARAUnifiedGovernanceKernel.evaluate` and `_aggregate_decision`, Evaluate the signed
--     evidence and `IndependentEvidenceVerifier`. Statuses, Decision, Authorized, Bounds, Coverage
--     and Evidence have the proofs.
--   Enforcement.antt and Enforcement/: sara_unified/governance/enforcement.py. `authorize` is split
--     where it can leave: with_kernel, after_verify, decide_and_record, settle. The ledger is the
--     interface `AuditPort`; Enforcement/Ledger fills it with the audit ledger.
--   Audit.antt and Audit/: sara_unified/evidence/audit.py. The file is its text; Lines has how
--     `splitlines` cuts it.
--   Authority.antt and Authority/: sara_unified/security/authorization.py and policy.py,
--     approvals.py, authority.py, sios.py and road.py of sara_unified/governance.
--   Security/: replay.py, rate_limit.py and circuit_breaker.py of sara_unified/security.
--   ControlPlane.antt and ControlPlane/: app/control_plane.py, `IdempotencyLedger` and
--     `RailwayControlBridge`. `deploy_exact_commit` is split where it can raise.
--   Titan.antt and Titan/: app/titan.py.
--   ModelSovereignty.antt and ModelSovereignty/: app/model_sovereignty.py.
--   Identity.antt and Identity/: app/user_identity.py. Clients is the configuration of the OAuth
--     clients, Requests what they may ask for, Password `_validate_password`, Enroll the invitations
--     and accounts, Rows and Tokens the codes and tokens, Lockout the log-in; Calls is a sequence of
--     calls. A method is split at the row that it reads. Replay, Grants and Lockout/Locked have the
--     theorems, over Kept and Spending.
--   Iot.antt and Iot/: commands.py of app/iot, with `authorize_control` of auth.py and the command
--     table of store.py. `execute` is split where it can raise. Iot/Telemetry is
--     `authenticate_telemetry` with `ingest` of telemetry.py, Iot/Registry the
--     registration of devices.
--   VerdictLedger.antt and VerdictLedger/: app/ledger.py with `sign_and_verify` of app/signing.py.
--     `append` is split where it can raise.
--   Voice.antt and Voice/: sara_unified/voice. Segments is segmenting.py, Controls, Pronunciation and
--     Receipts the files of these names, Jobs jobs.py. `run_job` is split where it looks at the job
--     and where it waits for the client: Voice/Jobs has the pieces, Jobs/Public its public view, Jobs/Runs
--     the run that nothing interrupts, Jobs/Steps the relation in which `stop_job` can come
--     between any two pieces, each of which is one step.
--   RoadGates.antt and RoadGates/: app/road_gates.py.
--   Epistemic.antt and Epistemic/: app/epistemic.py.
--   Prelude.antt and Prelude/ have the shared tests, lists, dictionaries, texts, numbers and results.
--   Examples.antt and Examples/ run the code at concrete inputs.
--
-- How the code is read. A method that changes its object takes the state and returns the new one.
-- A call that raises is `raised` with the name of the exception; a state that was changed before an
-- exception is returned with it. A dict is an association list in the order of insertion. The clock,
-- `uuid4` and random keys are arguments. SHA-256, HMAC, the canonical JSON under them, the HTTP
-- client and what it reaches, SQLite and the file system are parameters or data; what a connection
-- reads after a commit of the verdict ledger is a parameter. Where a theorem needs that two values
-- do not collide under a digest, that is a hypothesis of it.
--
-- Bounds. No function runs on fuel but the digits of the example's logarithm, which have 20. Floats
-- are the interface `Float` of Prelude/Float; a theorem that needs laws of them takes `Lawful`:
-- a total comparison, and monotone sums and roundings; `sum` is an operation of its own, since
-- Python's is compensated from 3.12 on. Rate limits and breakers are over whole numbers, at which
-- the floats of the code are exact; a negative refill is not represented. Texts are ASCII where the code changes their case or strips them. A JSON object
-- has the keys that the code writes.
--
-- Not modelled: HTTP routing, HTML, health reports, log redaction, language-model providers, the
-- health of devices, the voice client, memory, science and enterprise modules
-- of app, the ROAD connector, the signer and voice services, and scripts.
pub mod Prelude
pub mod Kernel
pub mod Audit
pub mod Enforcement
pub mod Security
pub mod Authority
pub mod ControlPlane
pub mod RoadGates
pub mod Epistemic
pub mod ModelSovereignty
pub mod Titan
pub mod VerdictLedger
pub mod Voice
pub mod Identity
pub mod Iot
pub mod Examples
