-- ===== src/Events/Service.antt =====
-- EventService of services/api/app/events/service.py: its indexes and its operations.
pub mod Groups
pub mod Version
pub mod Valid
pub mod Ingest
pub mod Publication
pub mod Listing
pub mod Many
pub mod Refreshed
use Prim.Native.Nat.{min}
use Prim.Native.String.{◌++◌ as ◌+text+◌}
use event_alpha.Prelude.{
  ℕ, ◌+◌, ◌-◌, ◌*◌, String, Bool, true, false, List, [], ◌∷◌, ◌++◌, map, Option, none, some,
  or_else, ltb, leb, length, str_eq, if◌then◌else◌,
}
use event_alpha.Prelude.Dict.{Key, Dict, ℕ_key, string_key, pair_key, lookup, insert, values}
use event_alpha.Prelude.Order.{sort}
use event_alpha.Errors.{Exc, Result, ok, err, key_error}
use event_alpha.Exec.{Exec, after, ◌>>=◌, ◌>>◌, pure, raise}
use event_alpha.Contracts.{Uuid}
use event_alpha.Contracts.Time.{Instant}
use event_alpha.Contracts.Event.{RawEnvelope, CanonicalEvent, EventMention, Digest, Hundredths}
use event_alpha.Events.Title.{Alphabet}
use event_alpha.Events.Similarity.{similar_among, contains}
use event_alpha.Events.Interface.{
  IngestResult, StoredItemIndex, PersistedEventState, EventPersistence,
}

-- What the service takes from Python: the classes of characters, and the texts of a digest and of
-- a UUID.
pub record EventRuntime : Type 0 where
  pub alphabet : Alphabet
  pub hex_text : Digest → String
  pub uuid_text : Uuid → String

-- value or default, where an empty text counts as no value
abbrev pub text_or : Option String → String → String
text_or none default = default
text_or (some text) default = if str_eq text "" then default else text

-- (provider, source_id, native identifier or hash)
abbrev pub Identity : Type 0
Identity = String × (String × String)

abbrev pub identity_key : Key Identity
identity_key = pair_key string_key (pair_key string_key string_key)

abbrev pub version_key : Key (Uuid × ℕ)
version_key = pair_key ℕ_key ℕ_key

pub record Indexes : Type 0 where
  pub events : Dict Uuid CanonicalEvent
  pub versions : Dict (Uuid × ℕ) CanonicalEvent
  pub by_identity : Dict Identity Uuid
  pub by_content_hash : Dict Digest (List Uuid)

abbrev pub no_indexes : Indexes
no_indexes = record { events = []; versions = []; by_identity = []; by_content_hash = [] }

-- ids.add(id)
abbrev pub add_id : Uuid → List Uuid → List Uuid
add_id id ids = if contains ids id then ids else id ∷ ids

-- by_content_hash.setdefault(hash, set()).add(id)
abbrev pub add_content : Digest → Uuid → Dict Digest (List Uuid) → Dict Digest (List Uuid)
add_content hash id d = insert ℕ_key hash (add_id id (or_else (lookup ℕ_key hash d) [])) d

-- group in groups
unfoldable pub listed : String → List String → Bool
listed group [] = false
listed group (other ∷ groups) = if str_eq other group then true else listed group groups

-- The elements of a set of texts, each once.
unfoldable pub distinct : List String → List String
unfolding listed
distinct [] = []
distinct (group ∷ groups) =
    let rest = distinct groups in if listed group groups then rest else group ∷ rest

abbrev pub clustering_version : String
clustering_version = "title-jaccard-v1"

-- min(1.0, 0.5 + 0.25 * (count - 1))
unfoldable pub independence_of : ℕ → Hundredths
independence_of count = min 100 (50 + 25 * (count - 1))

-- The mention of an item.
unfoldable pub mention_of : RawEnvelope → EventMention
mention_of envelope = record {
  raw_item_id = envelope.id;
  source_id = envelope.source_id;
  independence_group = text_or envelope.independence_group envelope.source_id;
  published_at = envelope.published_at;
  received_at = envelope.received_at;
}

-- event_time or published_at
abbrev first_of : Option Instant → Option Instant → Option Instant
first_of none b = b
first_of (some a) b = some a

-- The event of an item that joins none; `event_id` is the value of `uuid4()`.
unfoldable pub new_event : Uuid → RawEnvelope → CanonicalEvent
unfolding mention_of
new_event event_id envelope = record {
  event_id = event_id;
  event_version = 1;
  version_created_at = envelope.processed_at;
  clustering_version = clustering_version;
  canonical_title = envelope.title;
  event_type = envelope.category;
  event_time = first_of envelope.event_time envelope.published_at;
  first_received_at = envelope.received_at;
  last_updated_at = envelope.received_at;
  language = envelope.language;
  novelty = 100;
  source_independence = 50;
  mentions = mention_of envelope ∷ [];
}

-- key=lambda item: item.received_at
abbrev pub received_before : EventMention → EventMention → Bool
received_before a b = leb a.received_at b.received_at

-- The next version of the event that an item joins.
unfoldable pub joined_event : RawEnvelope → CanonicalEvent → CanonicalEvent
unfolding mention_of independence_of distinct
joined_event envelope existing =
    let mention = mention_of envelope in
    let unique_groups =
      distinct (mention.independence_group ∷ map (λ m. m.independence_group) existing.mentions) in
    record existing {
      event_version = existing.event_version + 1;
      version_created_at = envelope.processed_at;
      clustering_version = clustering_version;
      first_received_at =
          if ltb envelope.received_at existing.first_received_at
          then envelope.received_at
          else existing.first_received_at;
      last_updated_at =
          if ltb existing.last_updated_at envelope.received_at
          then envelope.received_at
          else existing.last_updated_at;
      source_independence = independence_of (length unique_groups);
      mentions = sort received_before (existing.mentions ++ mention ∷ []);
    }

-- The four assignments at the end of `ingest`.
unfoldable pub remember_event : Identity → RawEnvelope → CanonicalEvent → Indexes → Indexes
remember_event key envelope event indexes = record {
  events = insert ℕ_key event.event_id event indexes.events;
  versions = insert version_key (event.event_id, event.event_version) event indexes.versions;
  by_content_hash = add_content envelope.content_hash event.event_id indexes.by_content_hash;
  by_identity = insert identity_key key event.event_id indexes.by_identity;
}

module _ (runtime : EventRuntime) where
  -- native_id or f"sha256:{content_hash}"
  unfoldable pub identity_of : String → String → Option String → Digest → Identity
  identity_of provider source_id native_id content_hash =
      (provider, (source_id, text_or native_id ("sha256:" +text+ runtime.hex_text content_hash)))

  abbrev pub envelope_identity : RawEnvelope → Identity
  envelope_identity envelope =
      identity_of envelope.provider envelope.source_id envelope.native_id envelope.content_hash

  -- `_similar_event`
  unfoldable pub similar_event : RawEnvelope → Indexes → Option CanonicalEvent
  similar_event envelope indexes =
      similar_among runtime.alphabet envelope
        (or_else (lookup ℕ_key envelope.content_hash indexes.by_content_hash) [])
        (values indexes.events)

  -- The event that the item makes or changes, and whether it is a new one.
  unfoldable pub next_event : Uuid → RawEnvelope → Option CanonicalEvent → CanonicalEvent × Bool
  next_event event_id envelope none = (new_event event_id envelope, true)
  next_event event_id envelope (some existing) = (joined_event envelope existing, false)

  -- The indexes that `refresh` builds.
  unfoldable pub index_events : List CanonicalEvent → Indexes → Indexes
  index_events [] indexes = indexes
  index_events (event ∷ events) indexes = index_events events (record indexes {
    events = insert ℕ_key event.event_id event indexes.events;
    versions = insert version_key (event.event_id, event.event_version) event indexes.versions;
  })

  unfoldable pub index_items : List StoredItemIndex → Indexes → Indexes
  index_items [] indexes = indexes
  index_items (item ∷ items) indexes = index_items items (record indexes {
    by_identity =
        insert identity_key
          (identity_of item.provider item.source_id item.native_id item.content_hash) item.event_id
          indexes.by_identity;
    by_content_hash = add_content item.content_hash item.event_id indexes.by_content_hash;
  })

  unfoldable pub indexes_of : PersistedEventState → Indexes
  indexes_of state = index_items state.items (index_events state.events no_indexes)

  module _ (persistence : EventPersistence) (persistent : Bool) where
    -- What a service has and changes. `persistent` says that a persistence is given.
    pub record World : Type 0 where
      pub store : persistence.S
      pub indexes : Indexes

    abbrev pub stored : {A : Type 0} → Exec persistence.S A → Exec World A
    stored m w = let (r, store) = m w.store in (r, record w { store = store })

    abbrev put_indexes : Indexes → Exec World (Unit {0})
    put_indexes indexes w = (ok tt, record w { indexes = indexes })

    -- `refresh`
    unfoldable pub refresh : Exec World (Unit {0})
    refresh =
        if persistent
        then (do state ← stored persistence.load_state; put_indexes (indexes_of state))
        else pure tt

    abbrev found_event : Uuid → Option CanonicalEvent → Exec World IngestResult
    found_event id none = raise (key_error (runtime.uuid_text id))
    found_event id (some event) =
        pure (record { event = event; created = false; idempotent = true })

    -- if self._persistence is not None: self._persistence.save(envelope, event)
    unfoldable pub persist : RawEnvelope → CanonicalEvent → Exec World (Unit {0})
    persist envelope event =
        if persistent then stored (persistence.save envelope event) else pure tt

    abbrev publish_event : RawEnvelope → CanonicalEvent → Exec World (Unit {0})
    publish_event envelope event w = (
      ok tt,
      record w { indexes = remember_event (envelope_identity envelope) envelope event w.indexes },
    )

    abbrev pub ingest_new : Uuid → RawEnvelope → Exec World IngestResult
    ingest_new event_id envelope w =
        let (event, created) = next_event event_id envelope (similar_event envelope w.indexes) in
        let rest : Exec World IngestResult = do
          persist envelope event
          publish_event envelope event
          pure (record { event = event; created = created; idempotent = false })
        in rest w

    abbrev pub ingest_as : Uuid → RawEnvelope → Option Uuid → Exec World IngestResult
    ingest_as event_id envelope (some id) w = found_event id (lookup ℕ_key id w.indexes.events) w
    ingest_as event_id envelope none w = ingest_new event_id envelope w

    -- `ingest`; `event_id` is the value of `uuid4()` for an event that is created.
    unfoldable pub ingest : Uuid → RawEnvelope → Exec World IngestResult
    unfolding next_event similar_event persist remember_event
    ingest event_id envelope w =
        ingest_as event_id envelope
          (lookup identity_key (envelope_identity envelope) w.indexes.by_identity) w

    -- `list_events`
    unfoldable pub list_events : World → List CanonicalEvent
    list_events w =
        sort (λ a b. leb b.first_received_at a.first_received_at) (values w.indexes.events)

    unfoldable pub get_event : Uuid → World → Option CanonicalEvent
    get_event id w = lookup ℕ_key id w.indexes.events

    abbrev cached : Uuid → ℕ → Option CanonicalEvent → Exec World (Option CanonicalEvent)
    cached id version none w = (ok none, w)
    cached id version (some event) w = (
      ok (some event),
      record w {
        indexes = record w.indexes {
          versions = insert version_key (id, version) event w.indexes.versions;
        };
      },
    )

    abbrev version_found : Uuid → ℕ → Option CanonicalEvent → Exec World (Option CanonicalEvent)
    version_found id version (some event) = pure (some event)
    version_found id version none =
        if persistent
        then (do
          event ← stored (persistence.load_event_version id version)
          cached id version event)
        else pure none

    -- `get_event_version`
    unfoldable pub get_event_version : Uuid → ℕ → Exec World (Option CanonicalEvent)
    get_event_version id version w =
        version_found id version (lookup version_key (id, version) w.indexes.versions) w

    -- `ingest_many`, with the values of `uuid4()`
    unfoldable pub ingest_many : List (Uuid × RawEnvelope) → Exec World (List IngestResult)
    ingest_many [] = pure []
    ingest_many ((event_id, item) ∷ items) = do
      result ← ingest event_id item
      results ← ingest_many items
      pure (result ∷ results)
