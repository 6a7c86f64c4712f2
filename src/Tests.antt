-- ===== src/Tests.antt =====
-- Concrete runs of the models, and the theorems at concrete inputs.
mod Samples
mod Market
mod Domain
mod Service
mod Events
mod Ingest
mod Migrations
mod Replay
mod News
