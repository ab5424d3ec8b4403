-- ===== src/Vulnerability.antt =====
-- internal/vulnerability: severities and summaries, the vulnerability check of a release, and the
-- comparison of two releases.
pub mod Severity
pub mod Evaluation
pub mod Diff
pub mod Reading
