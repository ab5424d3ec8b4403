-- ===== src/Serving.antt =====
-- internal/controller/serving_controller.go: one reconcile of a Serving, the stage that promotes the
-- Preparations of an Order and deploys them.
pub mod Approvals
pub mod Checks
pub mod Deploy
pub mod Engine
pub mod Inputs
pub mod Observation
pub mod Preparation
pub mod Promote
pub mod Reconcile
pub mod Standing
pub mod Status
pub mod Targets
pub mod Upstream
