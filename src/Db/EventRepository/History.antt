-- ===== src/Db/EventRepository/History.antt =====
-- `load_event_version` of services/api/app/db/event_repository.py gives the versions back that
-- were saved.
use mathlib.Core.Path.{subst}
use event_alpha.Prelude.{
  ℕ, ◌≡◌, refl, sym, ap, ◌∙◌, ◌↔◌, Bool, true, not, ◌&&◌, List, map, some, arith, ltb, ◌==◌, ==_iff,
  In, In-map, map-In, In-keep, keep-In, keep,
}
use event_alpha.Prelude.Dict.{lookup}
use event_alpha.Prelude.Order.{Sorted, sort, sort-Sorted, sort-In, In-sort}
use event_alpha.Errors.{ok}
use event_alpha.Contracts.{Uuid}
use event_alpha.Contracts.Event.{EventMention, CanonicalEvent}
use event_alpha.Db.Schema.{EventMentionRow}
use event_alpha.Db.EventRepository.{EventSchema, EventDb, read_mention, load_event_version}
use event_alpha.Db.EventRepository.Rows.{canonical-event_row}
use event_alpha.Db.EventRepository.Synced.{Synced, HasMention}
use event_alpha.Events.Service.{EventRuntime, Indexes, version_key, received_before}
use event_alpha.Events.Service.Version.{received_before_total, received_before_trans}

-- The same event, with mentions in an order of receipt that may differ where times are equal.
pub record SameEvent (event loaded : CanonicalEvent) : Type 0 where
  pub same_fields : loaded ≡ record event { mentions = loaded.mentions }
  pub same_mentions :
      (mention : EventMention) → In mention loaded.mentions ↔ In mention event.mentions
  pub in_order : Sorted received_before loaded.mentions

module _ (runtime : EventRuntime) (schema : EventSchema) (x : Indexes) (db : EventDb schema) where
  open schema use {dialect, mentions}

  -- The mentions that `load_event_version` reads.
  abbrev is_read : Uuid → ℕ → EventMentionRow → Bool
  is_read id version row = row.event_id == id && not (ltb version row.event_version)

  abbrev unsorted_mentions : Uuid → ℕ → List EventMention
  unsorted_mentions id version =
      map (read_mention dialect) (keep (is_read id version) (mentions.rows db.mentions))

  abbrev read_mentions : Uuid → ℕ → List EventMention
  read_mentions id version = sort received_before (unsorted_mentions id version)

  In-read_mentions :
      (id : Uuid) (version : ℕ) (mention : EventMention)
      → In mention (read_mentions id version) ↔ HasMention runtime schema db id version mention
  unfolding read_mention
  In-read_mentions id version mention = (
    λ m.
        let (row, kept, is_mention) =
          In-map (read_mention dialect) mention _ (sort-In received_before mention _ m) in
        let (stored, test) = keep-In _ row (mentions.rows db.mentions) kept in
        (
          row,
          ap (mentions.get db.mentions) (ap (λ n. n.raw_item_id) is_mention)
              ∙ mentions.rows-get db.mentions row stored,
          ground (arith, ==_iff row.event_id id),
          ground (arith, test),
          sym is_mention,
        ),
    λ (row, found, is_id, le, read).
        let stored = mentions.get-rows db.mentions mention.raw_item_id row found in
        let test : (row.event_id == id && not (ltb version row.event_version)) ≡ true =
          ground (arith, ==_iff row.event_id id, is_id, le) in
        In-sort received_before mention _ (
          subst (λ n. In n (unsorted_mentions id version)) read
            (map-In (read_mention dialect) row _
              (In-keep (is_read id version) row (mentions.rows db.mentions) stored test))),
  )

  -- A version in `_versions` is read back with the same fields and the same mentions, in the order
  -- of their receipt.
  pub load_event_version-saved :
      (id : Uuid) (version : ℕ) (event : CanonicalEvent)
      → Synced runtime schema x db
      → lookup version_key (id, version) x.versions ≡ some event
      → (loaded : CanonicalEvent) × (load_event_version schema id version db
          ≡ (ok (some loaded), db))
        × SameEvent event loaded
  unfolding load_event_version
  load_event_version-saved id version event synced h =
      let is_row = synced.stored id version event h in
      (
        record event { mentions = read_mentions id version },
        rw is_row (
            ap (λ (e : CanonicalEvent). (ok (some e), db))
              (canonical-event_row dialect event (read_mentions id version))),
        record {
          same_fields = refl;
          same_mentions = λ mention.
              let listed = synced.listed id version event mention h in
              let read = In-read_mentions id version mention in
              (λ m. listed.1 (read.0 m), λ m. read.1 (listed.0 m));
          in_order = sort-Sorted received_before received_before_total received_before_trans _;
        },
      )
