-- ===== src/Contracts/Event.antt =====
-- RawEnvelope, EventMention and CanonicalEvent of services/api/app/contracts.py.
use event_alpha.Prelude.{ℕ, String, Option, List}
use event_alpha.Contracts.Base.{Uuid, StoragePolicy}
use event_alpha.Contracts.Time.{Instant}

-- A score between 0 and 1, in hundredths: the code gives these fields multiples of 0.25 and the
-- priors of its sources, all of two decimal places.
abbrev pub Hundredths : Type 0
Hundredths = ℕ

-- A SHA-256 digest is its 256-bit value: the 64 hexadecimal digits are ordered as the values are.
abbrev pub Digest : Type 0
Digest = ℕ

pub record RawEnvelope : Type 0 where
  pub id : Uuid
  pub trace_id : Uuid
  pub provider : String
  pub source_id : String
  pub source_type : String
  pub source_credibility_prior : Hundredths
  pub native_id : Option String
  pub event_time : Option Instant
  pub published_at : Option Instant
  pub received_at : Instant
  pub processed_at : Instant
  pub title : String
  pub content : String
  pub url : String
  pub language : String
  pub category : String
  pub content_hash : Digest
  pub storage_policy : StoragePolicy
  pub independence_group : Option String
  pub derived_attributes : List (String × String)

pub record EventMention : Type 0 where
  pub raw_item_id : Uuid
  pub source_id : String
  pub independence_group : String
  pub published_at : Option Instant
  pub received_at : Instant

pub record CanonicalEvent : Type 0 where
  pub event_id : Uuid
  pub event_version : ℕ
  pub version_created_at : Instant
  pub clustering_version : String
  pub canonical_title : String
  pub event_type : String
  pub event_time : Option Instant
  pub first_received_at : Instant
  pub last_updated_at : Instant
  pub language : String
  pub novelty : Hundredths
  pub source_independence : Hundredths
  pub mentions : List EventMention
