-- ===== src/Db/EventRepository/Rows.antt =====
-- What the rows of an event and of its mentions are read back as.
use mathlib.Core.Path.{subst}
use event_alpha.Prelude.{
  ◌≡◌, ◌≢◌, refl, sym, ap, ◌∙◌, ◌⊎◌, inl, inr, true, not, ◌&&◌, List, [], ◌∷◌, Option, none, some,
  arith, ◌==◌, In, In-append, append-In, Bool-cases, ==_iff,
}
use event_alpha.Contracts.Event.{EventMention, CanonicalEvent}
use event_alpha.Contracts.Time.{Instant}
use event_alpha.Prelude.Dict.{Key}
use event_alpha.Db.Table.{Table}
use event_alpha.Db.Schema.{Dialect, RawItemRow, EventMentionRow, utc-column}
use event_alpha.Db.MarketRepository.Quotes.{read_optional}
use event_alpha.Db.EventRepository.{
  EventSchema, event_row, mention_row, canonical_event, read_mention, next_mention, violates,
  same_entry, with_item, joined,
}

module _ (dialect : Dialect) where
  pub read_optional_lem : (o : Option Instant) → read_optional dialect o ≡ o
  read_optional_lem none = refl
  read_optional_lem (some t) = ap some (utc-column dialect t)

  pub read-mention_row :
      (event : CanonicalEvent) (mention : EventMention)
      → read_mention dialect (mention_row event mention) ≡ mention
  unfolding read_mention mention_row
  read-mention_row event mention =
      cc (read_optional_lem mention.published_at, utc-column dialect mention.received_at)

  pub canonical-event_row :
      (event : CanonicalEvent) (mentions : List EventMention)
      → canonical_event dialect (event_row event) mentions ≡ record event { mentions = mentions }
  unfolding canonical_event event_row
  canonical-event_row event mentions = cc (
    utc-column dialect event.version_created_at,
    utc-column dialect event.first_received_at,
    utc-column dialect event.last_updated_at,
    read_optional_lem event.event_time,
  )

-- The mention of an item is found where it is the only one of that item.
pub next_mention-In :
    (mention : EventMention) (mentions : List EventMention)
    → In mention mentions
    → ((m : EventMention) → In m mentions → m.raw_item_id ≡ mention.raw_item_id → m ≡ mention)
    → next_mention mention.raw_item_id mentions ≡ some mention
unfolding next_mention
next_mention-In mention [] m once = absurd m
next_mention-In mention (n ∷ mentions) m once =
    elim (Bool-cases (n.raw_item_id == mention.raw_item_id)) [
      | inl same ↦
          rw same (ap some (once n (inl refl) ((==_iff n.raw_item_id mention.raw_item_id).0 same)))
      | inr other ↦ rw other (elim m [
        | inl e ↦ absurd (ground (arith, ap (λ x. x.raw_item_id) e, other))
        | inr later ↦ next_mention-In mention mentions later (λ k l. once k (inr l))
      ])
    ]

pub violates-In :
    (r : RawItemRow) (rows : List RawItemRow)
    → violates r rows ≡ true
    → (s : RawItemRow) × In s rows × (s.id ≢ r.id) × (same_entry r s ≡ true)
unfolding violates
violates-In r [] h = absurd (cc h)
violates-In r (s ∷ rows) h = elim (Bool-cases (not (s.id == r.id) && same_entry r s)) [
  | inl here ↦ (s, inl refl, ground arith, ground arith)
  | inr later ↦
      let (found, m, other, entry) = violates-In r rows (ground arith) in
      (found, inr m, other, entry)
]

module _ (schema : EventSchema) where
  open schema use {raw_items}

  -- The pairs of the join.
  with_item-In :
      (p : EventMentionRow × RawItemRow) (row : EventMentionRow) (o : Option RawItemRow)
      → In p (with_item schema row o)
      → (p.0 ≡ row) × (o ≡ some p.1)
  with_item-In p row none m = absurd m
  with_item-In p row (some item) (inl e) = (ap (λ q. q.0) e, sym (ap (λ q. some q.1) e))
  with_item-In p row (some item) (inr m) = absurd m

  pub joined-In :
      (p : EventMentionRow × RawItemRow) (rows : List EventMentionRow) (items : raw_items.T)
      → In p (joined schema rows items)
      → In p.0 rows × (raw_items.get items p.0.raw_item_id ≡ some p.1)
  unfolding joined
  joined-In p [] items m = absurd m
  joined-In p (row ∷ rows) items m =
      elim (In-append p (with_item schema row (raw_items.get items row.raw_item_id)) _ m) [
        | inl here ↦
            let (same, found) = with_item-In p row (raw_items.get items row.raw_item_id) here in
            (inl same, ap (λ r. raw_items.get items r.raw_item_id) same ∙ found)
        | inr later ↦ let (m', found) = joined-In p rows items later in (inr m', found)
      ]

  pub In-joined :
      (row : EventMentionRow) (item : RawItemRow) (rows : List EventMentionRow)
      (items : raw_items.T)
      → In row rows
      → raw_items.get items row.raw_item_id ≡ some item
      → In (row, item) (joined schema rows items)
  unfolding joined
  In-joined row item [] items m h = absurd m
  In-joined row item (r ∷ rows) items (inl e) h =
      append-In (row, item) (with_item schema r (raw_items.get items r.raw_item_id)) _
        (inl (
          subst (λ x. In (row, item) (with_item schema x (raw_items.get items x.raw_item_id))) e
            (subst (λ o. In (row, item) (with_item schema row o)) (sym h) (inl refl))))
  In-joined row item (r ∷ rows) items (inr m) h =
      append-In (row, item) (with_item schema r (raw_items.get items r.raw_item_id)) _
        (inr (In-joined row item rows items m h))

-- A row that is found after a write was written, or was there before; and where the key of the
-- write was a new one, each row that was there is still found.
module _ {K R : Type 0} {key : R → K} (same_key : Key K) (table : Table K R key) where
  pub put-found :
      (r s : R) (t : table.T) (k : K)
      → table.get (table.put r t) k ≡ some s
      → ((key r ≡ k) × (r ≡ s)) ⊎ (table.get t k ≡ some s)
  put-found r s t k h = elim (Bool-cases (same_key.same (key r) k)) [
    | inl same ↦
        let is_key = (same_key.same_iff (key r) k).0 same in
        let is_row : some r ≡ some s =
          sym (table.get-put_self r t) ∙ ap (λ j. table.get (table.put r t) j) is_key ∙ h in
        inl (is_key, cc is_row)
    | inr different ↦
        inr (
          sym (table.get-put_ne r t k (λ e. cc ((same_key.same_iff (key r) k).1 e, different))) ∙ h)
  ]

  pub put-kept :
      (r s : R) (t : table.T) (k : K)
      → table.get t (key r) ≡ none
      → table.get t k ≡ some s
      → table.get (table.put r t) k ≡ some s
  put-kept r s t k absent h = table.get-put_ne r t k (λ e. cc (absent, h, ap (table.get t) e)) ∙ h
