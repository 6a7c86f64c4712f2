-- ===== src/Events/Interface.antt =====
-- The data that the event service exchanges, and the protocol EventPersistence
-- (services/api/app/events/service.py).
use event_alpha.Prelude.{ℕ, String, Bool, List, Option}
use event_alpha.Exec.{Exec}
use event_alpha.Contracts.{Uuid}
use event_alpha.Contracts.Event.{RawEnvelope, CanonicalEvent, Digest}

pub record IngestResult : Type 0 where
  pub event : CanonicalEvent
  pub created : Bool
  pub idempotent : Bool

pub record StoredItemIndex : Type 0 where
  pub provider : String
  pub source_id : String
  pub native_id : Option String
  pub content_hash : Digest
  pub event_id : Uuid

pub record PersistedEventState : Type 0 where
  pub events : List CanonicalEvent
  pub items : List StoredItemIndex

-- Any call may raise.
pub record EventPersistence : Type 1 where
  pub S : Type 0
  pub save : RawEnvelope → CanonicalEvent → Exec S (Unit {0})
  pub load_state : Exec S PersistedEventState
  pub load_event_version : Uuid → ℕ → Exec S (Option CanonicalEvent)
