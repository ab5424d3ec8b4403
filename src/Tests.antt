-- ===== src/Tests.antt =====
-- Small stages, pipelines, votes and scans that the modules' theorems are applied to.
mod Values
mod Stages
mod Histories
mod Pipelines
mod Votes
mod Findings
mod Schedule
mod Patches
mod Servings
mod Clusters
mod SignOuts
