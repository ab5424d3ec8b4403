-- ===== src/Lib.antt =====
-- Kokumi renders Products into Preparations and serves them with Argo CD, stage by stage: a release
-- is promoted once its gates let it pass. This library models the code that decides, which the
-- controllers call with what they read from Kubernetes, Argo CD and OCI registries.
--
-- * Promotion/History.antt is internal/promotion/history.go: what a stage deployed, newest first. A
--   method that returns a new History is a function of the old one; `Move` and `run` (History/Runs)
--   are the sequences of calls that a stage makes.
-- * Promotion/Gate.antt is internal/promotion/gate.go: `evaluate` is Evaluate, `evaluate_stage` is
--   evaluateStage, and `scan_history` is its loop over the history of an upstream stage. It reads the
--   histories of History.antt.
-- * Promotion/Pipeline.antt is internal/promotion/pipeline.go: `problem` is Problem, `walk` the
--   recursive closure of cycle, which takes the variables `visited` and `path` as its state.
-- * Promotion/Release.antt is internal/promotion/release.go and environment.go: NewestReady, Required.
-- * Vulnerability/Severity.antt is internal/vulnerability/severity.go, with Finding of report.go.
-- * Vulnerability/Evaluation.antt is internal/vulnerability/evaluate.go: `evaluate` is Evaluate over
--   the assessments that Read made. Vulnerability/Diff.antt is diff.go and, of evaluate.go, Compare.
-- * Vulnerability/Reading.antt is Read of evaluate.go, whose reads of different reports do not depend on
--   one another.
-- * Serving.antt and the modules below it are internal/controller/serving_controller.go: `reconcile_serving`
--   (Serving/Reconcile) is reconcileServing, `promote` (Serving/Promote) is promote, with one function
--   for what follows each of its calls, and its gates are `upstream`, `checks`, `gate` and `verify` in
--   Serving/Upstream, Checks and Approvals. `deploy` (Serving/Deploy) is deploy, over `targets` and
--   `apply_targets` of Serving/Engine, the targets of Serving/Targets, and what Serving/Observation and
--   Serving/Standing make of the states that an engine reports. Each takes a Serving's status and
--   returns the one it leaves (Serving/Status); what the API server, the engine, the registry and the
--   keys answer is in the records Inputs, Deploying and Choosing. They call the functions of
--   Promotion, Approval and Vulnerability as the source calls those packages.
-- * Scan.antt is internal/scan/schedule.go: Due, Next and Status.Health.
-- * Resolve.antt is, of internal/resolve/merge.go, validatePatches. Resolve/Merge is mergePatches.
--   Resolve/Values is validateValues, mergeMaps, and mergeRender from where the values are decoded.
-- * Sessions.antt and the modules below it are, of internal/server, the sessions of the user interface:
--   Sessions/Tokens is sessionEnd, idleDeadline and issueTokens of auth.go, Sessions/Ended the record of
--   ended_sessions.go, and Sessions/Refresh and SignIn are refreshSession, start, signInAdmin,
--   startSession and endSession of sessions.go, over the answers in Sessions/Manager.
-- * Approval.antt is internal/approval/evaluate.go and gate.go: `evaluate` is Evaluate, `gate` is Gate.
-- * Clock.antt is what these use of Go's package time. Prelude.antt and the modules below it hold
--   Boolean tests, lists over native numbers, integers, comparisons and a stable sort.
-- * Tests.antt and the modules below it apply the theorems to small concrete inputs.
--
-- Bounds and fuel: an instant is a number of nanoseconds since Go's zero time, and a duration an
-- integer within int64, which `Sub` saturates. Counts of findings are int32 and wrap around; the
-- theorems on them say for how many findings they are exact. The search of a pipeline runs on as much
-- fuel as the pipeline has Orders, plus two, since each nested call visits one more Order.
--
-- A message or a problem is the data that its text is made of, or is left out. A Go map with string
-- keys is a partial function, an association list, or the list of its writes, newest first. The other
-- packages are not modelled: the other controllers, the rest of the HTTP server and the calls of
-- Kubernetes, Argo CD, Helm, Trivy, Sigstore and OCI registries, the reading and writing of JSON, the
-- encoding of records, the rendering of manifests.
pub mod Approval
pub mod Clock
pub mod Prelude
pub mod Promotion
pub mod Resolve
pub mod Scan
pub mod Serving
pub mod Sessions
pub mod Tests
pub mod Vulnerability
