-- ===== src/Tests.antt =====
-- The witnesses of the theorems, and the definitions run on concrete inputs.
mod Values
mod Core
mod Changes
mod Gates
mod Scopes
mod Constraints
mod Decisions
mod Sessions
mod Anchors
mod Ledgers
mod Pipelines
mod Projections
mod Trees
mod Replays
