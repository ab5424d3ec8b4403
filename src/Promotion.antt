-- ===== src/Promotion.antt =====
-- internal/promotion: the deployment history of a stage, the gate of its upstream stages, the
-- pipeline that the stages form, and the choice of a release.
pub mod History
pub mod Gate
pub mod Pipeline
pub mod Release
