-- ===== src/Events/Service/Version.antt =====
-- What holds of every version of an event that the service makes.
use event_alpha.Prelude.{
  ◌+◌, ◌≤◌, ◌≡◌, refl, ap, ◌∙◌, ◌⊎◌, inl, inr, true, List, [], ◌∷◌, ◌++◌, arith, length,
  length-append, ltb, In, In-append, append-In, Bool-cases,
}
use event_alpha.Prelude.Order.{Sorted, sort, sort-Sorted, length-sort, sort-In, In-sort}
use event_alpha.Contracts.{Uuid}
use event_alpha.Contracts.Event.{RawEnvelope, EventMention, CanonicalEvent}
use event_alpha.Events.Service.{
  distinct, independence_of, mention_of, new_event, joined_event, received_before,
}
use event_alpha.Events.Service.Groups.{groups_of, groups-joined}

-- The version counts the mentions, which stand in the order of their receipt, from the first one's
-- to the last one's; the independence is what the number of their groups gives.
pub record IsEvent (event : CanonicalEvent) : Type 0 where
  pub counted : length event.mentions ≡ event.event_version
  pub in_order : Sorted received_before event.mentions
  pub earliest :
      (mention : EventMention)
      → In mention event.mentions
      → event.first_received_at ≤ mention.received_at
  pub latest :
      (mention : EventMention)
      → In mention event.mentions
      → mention.received_at ≤ event.last_updated_at
  pub begins :
      (mention : EventMention) × In mention event.mentions
      × (mention.received_at ≡ event.first_received_at)
  pub ends :
      (mention : EventMention) × In mention event.mentions
      × (mention.received_at ≡ event.last_updated_at)
  pub grouped :
      event.source_independence ≡ independence_of (length (distinct (groups_of event.mentions)))

pub new_event-IsEvent :
    (event_id : Uuid) (envelope : RawEnvelope) → IsEvent (new_event event_id envelope)
unfolding new_event mention_of independence_of distinct
new_event-IsEvent event_id envelope = record {
  counted = refl;
  in_order = ((λ m n. absurd n), tt);
  earliest =
      λ m n. elim n [ inl e ↦ omega (arith, ap (λ x. x.received_at) e) | inr n' ↦ absurd n' ];
  latest = λ m n. elim n [ inl e ↦ omega (arith, ap (λ x. x.received_at) e) | inr n' ↦ absurd n' ];
  begins = (mention_of envelope, inl refl, refl);
  ends = (mention_of envelope, inl refl, refl);
  grouped = refl;
}

pub received_before_total :
    (a b : EventMention) → (received_before a b ≡ true) ⊎ (received_before b a ≡ true)
received_before_total a b = ground arith

pub received_before_trans :
    (a b c : EventMention)
    → received_before a b ≡ true
    → received_before b c ≡ true
    → received_before a c ≡ true
received_before_trans a b c h k = ground arith

-- The mentions of the next version are those of the version before and the new one.
module _ (mentions : List EventMention) (mention : EventMention) where
  abbrev next_mentions : List EventMention
  next_mentions = sort received_before (mentions ++ mention ∷ [])

  pub mentions-In : (m : EventMention) → In m next_mentions → In m mentions ⊎ (m ≡ mention)
  mentions-In m n = elim (In-append m mentions (mention ∷ []) (sort-In received_before m _ n)) [
    | inl before ↦ inl before
    | inr (inl same) ↦ inr same
    | inr (inr none_left) ↦ absurd none_left
  ]

  pub In-mentions : (m : EventMention) → In m mentions ⊎ (m ≡ mention) → In m next_mentions
  In-mentions m n = In-sort received_before m _ (
      append-In m mentions (mention ∷ [])
        (elim n [ inl before ↦ inl before | inr same ↦ inr (inl same) ]))

  mentions-length : length next_mentions ≡ length mentions + 1
  mentions-length = omega (
    arith,
    length-sort received_before (mentions ++ mention ∷ []),
    length-append mentions (mention ∷ []),
  )

module _ (envelope : RawEnvelope) (event : CanonicalEvent) (valid : IsEvent event) where
  abbrev next_version : CanonicalEvent
  next_version = joined_event envelope event

  joined-earliest :
      (m : EventMention)
      → In m next_version.mentions
      → next_version.first_received_at ≤ m.received_at
  unfolding joined_event mention_of
  joined-earliest m n = elim (mentions-In event.mentions (mention_of envelope) m n) [
    | inl before ↦ ground (arith, valid.earliest m before)
    | inr same ↦ ground (arith, ap (λ x. x.received_at) same)
  ]

  joined-latest :
      (m : EventMention) → In m next_version.mentions → m.received_at ≤ next_version.last_updated_at
  unfolding joined_event mention_of
  joined-latest m n = elim (mentions-In event.mentions (mention_of envelope) m n) [
    | inl before ↦ ground (arith, valid.latest m before)
    | inr same ↦ ground (arith, ap (λ x. x.received_at) same)
  ]

  joined-begins :
      (m : EventMention) × In m next_version.mentions
      × (m.received_at ≡ next_version.first_received_at)
  unfolding joined_event mention_of
  joined-begins = elim (Bool-cases (ltb envelope.received_at event.first_received_at)) [
    | inl earlier ↦
        (mention_of envelope, In-mentions event.mentions _ _ (inr refl), rw earlier refl)
    | inr later ↦
        let (m, n, e) = valid.begins in (m, In-mentions event.mentions _ _ (inl n), rw later e)
  ]

  joined-ends :
      (m : EventMention) × In m next_version.mentions
      × (m.received_at ≡ next_version.last_updated_at)
  unfolding joined_event mention_of
  joined-ends = elim (Bool-cases (ltb event.last_updated_at envelope.received_at)) [
    | inl later ↦ (mention_of envelope, In-mentions event.mentions _ _ (inr refl), rw later refl)
    | inr earlier ↦
        let (m, n, e) = valid.ends in (m, In-mentions event.mentions _ _ (inl n), rw earlier e)
  ]

  pub joined_event-IsEvent : IsEvent (joined_event envelope event)
  unfolding joined_event
  joined_event-IsEvent = record {
    counted = mentions-length event.mentions (mention_of envelope) ∙ ap (λ n. n + 1) valid.counted;
    in_order = sort-Sorted received_before received_before_total received_before_trans _;
    earliest = joined-earliest;
    latest = joined-latest;
    begins = joined-begins;
    ends = joined-ends;
    grouped = ap independence_of (groups-joined event.mentions (mention_of envelope));
  }
