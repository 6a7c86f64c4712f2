-- ===== src/Events.antt =====
-- services/api/app/events: the canonical events that the ingested items are clustered into.
pub mod Title
pub mod Similarity
pub mod Interface
pub mod Service
