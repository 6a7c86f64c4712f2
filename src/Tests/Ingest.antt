-- ===== src/Tests/Ingest.antt =====
-- The theorems on the event service and on its repository at concrete inputs.
use native.Mathlib.Decide.{ℕ_discrete}
use mathlib.Core.Bool.{false≢true}
use event_alpha.Prelude.{
  ℕ, ◌≡◌, refl, sym, ◌∙◌, ◌↔◌, true, false, [], ◌∷◌, none, some, inl, inr, In, Bool-cases, keep,
}
use event_alpha.Prelude.Dict.{ℕ_key, lookup, insert, values}
use event_alpha.Prelude.Order.{Sorted}
use event_alpha.Errors.{ok, err, other}
use event_alpha.Contracts.{Uuid, optional_length}
use event_alpha.Contracts.Event.{RawEnvelope, CanonicalEvent}
use event_alpha.Db.Table.{list_table, list_get}
use event_alpha.Db.EventRepository.{
  EventSchema, EventDb, sql_event_repository, raw_item_row, save, violates, source_fits, item_fits,
  source_row, load_event_version,
}
use event_alpha.Db.EventRepository.Synced.{HasTexts, Synced}
use event_alpha.Db.EventRepository.Ingest.{ingest-Synced}
use event_alpha.Db.EventRepository.History.{SameEvent, load_event_version-saved}
use event_alpha.Db.EventRepository.Restart.{refreshed, SameService, refresh-Synced}
use event_alpha.Events.Title.{jaccard, title_fingerprint}
use event_alpha.Events.Similarity.{is_candidate, rank_lt, rank_of, similar_among}
use event_alpha.Events.Similarity.Order.{MayJoin, similar_among-some}
use event_alpha.Events.Interface.{IngestResult, EventPersistence}
use event_alpha.Events.Service.{
  mention_of, World, no_indexes, identity_of, version_key, new_event, ingest, ingest_many,
  list_events, get_event, persist,
}
use event_alpha.Events.Service.Valid.{IsValid}
use event_alpha.Events.Service.Many.{no_indexes-IsValid, ingest_many-IsValid}
use event_alpha.Events.Service.Publication.{
  Clustered, ingest-IsValid, ingest-versions, ingest-again, ingest-err, ingest-Clustered,
}
use event_alpha.Events.Service.Listing.{listed_before, list_events-get_event}
use event_alpha.Tests.Events.{ascii, event_runtime, item}
use event_alpha.Tests.Samples.{sqlite, string_discrete}

-- A persistence whose writes fail.
abbrev broken : EventPersistence
broken = record {
  S = Unit {0};
  save = λ envelope event s. (err (other "OperationalError"), s);
  load_state = λ s. (ok (record { events = []; items = [] }), s);
  load_event_version = λ id version s. (ok none, s);
}

abbrev first_item : RawEnvelope
first_item = item 1 "ir" "ACME raises guidance" 60

abbrev second_item : RawEnvelope
second_item = item 2 "wire" "ACME raises guidance" 50

-- A service without a persistence, and what it is after the first item.
abbrev start_world : World event_runtime broken false
start_world = record { store = tt; indexes = no_indexes }

abbrev first_event : CanonicalEvent
first_event = new_event 7 first_item

unfoldable first_world : World event_runtime broken false
unfolding ingest
first_world = (ingest event_runtime broken false 7 first_item start_world).1

nothing_known : lookup ℕ_key 7 no_indexes.events ≡ none
unfolding lookup
nothing_known = refl

first_world-IsValid : IsValid first_world.indexes
unfolding first_world
first_world-IsValid =
    ingest-IsValid event_runtime broken false 7 first_item start_world no_indexes-IsValid
      nothing_known

similar_among-some_example :
    In first_event (first_event ∷ [])
    × MayJoin ascii second_item [] first_event
    × ((event : CanonicalEvent)
        → In event (first_event ∷ [])
        → MayJoin ascii second_item [] event
        → rank_lt (rank_of ascii second_item [] first_event) (rank_of ascii second_item [] event)
          ≡ false)
unfolding similar_among new_event is_candidate jaccard title_fingerprint keep
similar_among-some_example =
    similar_among-some ascii second_item [] (first_event ∷ []) first_event refl

ingest_many-IsValid_example :
    IsValid
      (ingest_many event_runtime broken false
        ((7, first_item) ∷ (8, second_item) ∷ [])
        start_world).1.indexes
unfolding lookup
ingest_many-IsValid_example =
    ingest_many-IsValid event_runtime broken false ((7, first_item) ∷ (8, second_item) ∷ [])
      start_world no_indexes-IsValid (refl, ((λ e. cc e), tt), (refl, tt, tt))

second_known : lookup ℕ_key 8 first_world.indexes.events ≡ none
unfolding first_world ingest new_event lookup insert similar_among values
second_known = refl

ingest-versions_example :
    lookup version_key
      (7, 1)
      (ingest event_runtime broken false 8 second_item first_world).1.indexes.versions
    ≡ some first_event
unfolding first_world ingest new_event lookup insert similar_among values
ingest-versions_example =
    ingest-versions event_runtime broken false 8 second_item first_world 7 1 first_event
      first_world-IsValid refl refl

abbrev first_result : IngestResult
first_result = record { event = first_event; created = true; idempotent = false }

ingest-again_example :
    ingest event_runtime broken false 8 first_item first_world
    ≡ (ok (record { event = first_event; created = false; idempotent = true }), first_world)
unfolding first_world ingest new_event lookup insert similar_among values
ingest-again_example =
    ingest-again event_runtime broken false 7 first_item start_world 8 first_item first_result
      first_world no_indexes-IsValid nothing_known refl refl

ingest-Clustered_example :
    Clustered event_runtime broken false 7 first_item start_world (first_event, true)
unfolding first_world ingest new_event lookup insert similar_among values
ingest-Clustered_example =
    ingest-Clustered event_runtime broken false 7 first_item start_world first_result first_world
      no_indexes-IsValid nothing_known refl refl

abbrev failing_world : World event_runtime broken true
failing_world = record { store = tt; indexes = no_indexes }

ingest-err_example :
    (failing_world.indexes ≡ no_indexes)
    × (event : CanonicalEvent) × ((persist event_runtime broken true first_item event
          failing_world).0
        ≡ err (other "OperationalError"))
unfolding ingest new_event lookup insert similar_among values
ingest-err_example =
    ingest-err event_runtime broken true 7 first_item failing_world (other "OperationalError")
      failing_world no_indexes-IsValid nothing_known refl

list_events-get_event_example :
    Sorted listed_before (list_events event_runtime broken false first_world)
    × ((event : CanonicalEvent)
        → In event (list_events event_runtime broken false first_world)
          ↔ (get_event event_runtime broken false event.event_id first_world ≡ some event))
list_events-get_event_example =
    list_events-get_event event_runtime broken false first_world first_world-IsValid

version_discrete : Discrete (Uuid × ℕ)
version_discrete a b = elim (Bool-cases (version_key.same a b)) [
  | inl e ↦ yes ((version_key.same_iff a b).0 e)
  | inr e ↦ no (λ p. false≢true (sym e ∙ (version_key.same_iff a b).1 p))
]

unfoldable tables : EventSchema
unfolding sqlite list_table
tables = record {
  dialect = sqlite;
  limits_texts = false;
  sources = list_table (λ r. r.source_id) string_discrete;
  raw_items = list_table (λ r. r.id) ℕ_discrete;
  events = list_table (λ r. (r.event_id, r.event_version)) version_discrete;
  mentions = list_table (λ r. r.raw_item_id) ℕ_discrete;
}

unfoldable empty_tables : EventDb tables
unfolding tables list_table
empty_tables = record { sources = []; raw_items = []; events = []; mentions = [] }

empty_tables-Synced : Synced event_runtime tables no_indexes empty_tables
unfolding empty_tables tables list_table list_get lookup
empty_tables-Synced = record {
  stored = λ id version event h. absurd (cc h);
  listed = λ id version event mention h. absurd (cc h);
  known = λ id version row h. absurd (cc h);
  complete = λ id current version h _ _. absurd (cc h);
  fitting = λ id current h. absurd (cc h);
  itemed = λ id row h. absurd (cc h);
  mentioned = λ id item h. absurd (cc h);
  identified = λ key id h. absurd (cc h);
}

unfoldable sql_world : World event_runtime (sql_event_repository tables) true
sql_world = record { store = empty_tables; indexes = no_indexes }

unfoldable stored_world : World event_runtime (sql_event_repository tables) true
unfolding sql_world ingest
stored_world = (ingest event_runtime (sql_event_repository tables) true 7 first_item sql_world).1

first_item-HasTexts : HasTexts event_runtime tables first_item
unfolding source_fits item_fits optional_length source_row raw_item_row mention_of
first_item-HasTexts = record { source = refl; item = refl; group = refl }

ingest-Synced_example :
    ((result : IngestResult) × ((ingest event_runtime
          (sql_event_repository tables)
          true
          7
          first_item
          sql_world).0
        ≡ ok result))
    × Synced event_runtime tables
        (ingest event_runtime (sql_event_repository tables) true 7 first_item sql_world).1.indexes
        (ingest event_runtime (sql_event_repository tables) true 7 first_item sql_world).1.store
unfolding sql_world empty_tables tables list_table list_get
ingest-Synced_example =
    ingest-Synced event_runtime tables 7 first_item sql_world no_indexes-IsValid empty_tables-Synced
      nothing_known refl (λ e. cc e) first_item-HasTexts

stored_world-IsValid : IsValid stored_world.indexes
unfolding stored_world sql_world
stored_world-IsValid =
    ingest-IsValid event_runtime (sql_event_repository tables) true 7 first_item sql_world
      no_indexes-IsValid nothing_known

stored_world-Synced : Synced event_runtime tables stored_world.indexes stored_world.store
unfolding stored_world sql_world empty_tables tables list_table list_get
stored_world-Synced =
    (ingest-Synced event_runtime tables 7 first_item sql_world no_indexes-IsValid
      empty_tables-Synced nothing_known refl (λ e. cc e) first_item-HasTexts).1

load_event_version-saved_example :
    (loaded : CanonicalEvent) × (load_event_version tables 7 1 stored_world.store
      ≡ (ok (some loaded), stored_world.store))
    × SameEvent first_event loaded
unfolding stored_world sql_world ingest new_event lookup insert similar_among values save violates
    tables empty_tables
load_event_version-saved_example =
    load_event_version-saved event_runtime tables stored_world.indexes stored_world.store 7 1
      first_event stored_world-Synced refl

-- A service that starts with empty indexes over the tables of another one.
refresh-Synced_example :
    ((refreshed event_runtime tables stored_world.indexes no_indexes stored_world.store).0 ≡ ok tt)
    × ((refreshed event_runtime tables stored_world.indexes no_indexes stored_world.store).1.store
        ≡ stored_world.store)
    × SameService event_runtime tables stored_world.indexes no_indexes stored_world.store
        (refreshed event_runtime tables stored_world.indexes no_indexes
          stored_world.store).1.indexes
refresh-Synced_example =
    refresh-Synced event_runtime tables stored_world.indexes no_indexes stored_world.store
      stored_world-IsValid stored_world-Synced

-- Two items of one source with an empty native identifier and different contents: they differ for
-- the service, and not for the index uq_raw_provider_native.
abbrev unnamed : ℕ → RawEnvelope → RawEnvelope
unnamed hash envelope = record envelope { native_id = some ""; content_hash = hash }

unfoldable unnamed_world : World event_runtime (sql_event_repository tables) true
unfolding sql_world ingest
unnamed_world =
    (ingest event_runtime (sql_event_repository tables) true 7 (unnamed 1 first_item) sql_world).1

empty_native_id :
    (ingest event_runtime
      (sql_event_repository tables)
      true
      8
      (unnamed 2 (item 2 "ir" "Another headline" 90))
      unnamed_world).0
    ≡ err (other "IntegrityError")
unfolding unnamed_world sql_world ingest new_event lookup insert similar_among values save violates
    tables empty_tables is_candidate jaccard title_fingerprint keep identity_of raw_item_row
empty_native_id = refl
