-- ===== src/Events/Service/Groups.antt =====
-- The number of independence groups of an event depends only on which groups its mentions have.
use event_alpha.Prelude.{
  ◌≤◌, ◌≡◌, refl, sym, ◌∙◌, ◌⊎◌, inl, inr, String, true, false, List, [], ◌∷◌, ◌++◌, map, arith,
  length, eq_iff, Bool-cases,
}
use event_alpha.Prelude.Order.{insert, sort}
use event_alpha.Contracts.Event.{EventMention}
use event_alpha.Events.Service.{distinct, listed, received_before}

abbrev pub groups_of : List EventMention → List String
groups_of mentions = map (λ m. m.independence_group) mentions

listed-insert :
    (g : String) (m : EventMention) (ms : List EventMention)
    → listed g (groups_of (insert received_before m ms)) ≡ listed g (groups_of (m ∷ ms))
unfolding listed insert
listed-insert g m [] = refl
listed-insert g m (n ∷ ms) = ground (arith, listed-insert g m ms)

listed-sort :
    (g : String) (ms : List EventMention)
    → listed g (groups_of (sort received_before ms)) ≡ listed g (groups_of ms)
unfolding listed sort
listed-sort g [] = refl
listed-sort g (m ∷ ms) =
    ground (arith, listed-insert g m (sort received_before ms), listed-sort g ms)

listed-append :
    (g : String) (ms : List EventMention) (m : EventMention)
    → listed g (groups_of (ms ++ m ∷ [])) ≡ listed g (groups_of (m ∷ ms))
unfolding listed
listed-append g [] m = refl
listed-append g (n ∷ ms) m = ground (arith, listed-append g ms m)

-- The groups of two mentions in either order.
distinct_swap :
    (g h : String) (gs hs : List String)
    → listed g hs ≡ listed g (h ∷ gs)
    → length (distinct hs) ≡ length (distinct (h ∷ gs))
    → listed h (g ∷ gs) ≡ true ⊎ (listed h (g ∷ gs) ≡ false)
    → length (distinct (g ∷ hs)) ≡ length (distinct (h ∷ g ∷ gs))
unfolding distinct listed
distinct_swap g h gs hs e f c = ground (arith, eq_iff g h, eq_iff h g)

distinct-insert :
    (m : EventMention) (ms : List EventMention)
    → length (distinct (groups_of (insert received_before m ms)))
      ≡ length (distinct (groups_of (m ∷ ms)))
unfolding insert
distinct-insert m [] = refl
distinct-insert m (n ∷ ms) =
    let swapped =
      distinct_swap n.independence_group m.independence_group (groups_of ms)
        (groups_of (insert received_before m ms)) (listed-insert n.independence_group m ms)
        (distinct-insert m ms) (Bool-cases _) in
    elim (Bool-cases (received_before m n)) [
      | inl first ↦ rw first refl
      | inr later ↦ rw later swapped
    ]

distinct-append :
    (ms : List EventMention) (m : EventMention)
    → length (distinct (groups_of (ms ++ m ∷ []))) ≡ length (distinct (groups_of (m ∷ ms)))
distinct-append [] m = refl
distinct-append (n ∷ ms) m =
    distinct_swap n.independence_group m.independence_group (groups_of ms)
      (groups_of (ms ++ m ∷ [])) (listed-append n.independence_group ms m) (distinct-append ms m)
      (Bool-cases _)

distinct_cons :
    (g : String) (gs hs : List String)
    → listed g gs ≡ listed g hs
    → length (distinct gs) ≡ length (distinct hs)
    → length (distinct (g ∷ gs)) ≡ length (distinct (g ∷ hs))
unfolding distinct
distinct_cons g gs hs e h = ground arith

distinct-sort :
    (ms : List EventMention)
    → length (distinct (groups_of (sort received_before ms))) ≡ length (distinct (groups_of ms))
unfolding sort
distinct-sort [] = refl
distinct-sort (m ∷ ms) =
    distinct-insert m (sort received_before ms)
    ∙ distinct_cons m.independence_group (groups_of (sort received_before ms)) (groups_of ms)
        (listed-sort m.independence_group ms) (distinct-sort ms)

-- The groups that the code counts for the next version are those of its mentions.
pub groups-joined :
    (ms : List EventMention) (m : EventMention)
    → length (distinct (m.independence_group ∷ groups_of ms))
      ≡ length (distinct (groups_of (sort received_before (ms ++ m ∷ []))))
groups-joined ms m = sym (distinct-sort (ms ++ m ∷ []) ∙ distinct-append ms m)

distinct-one : (g : String) (gs : List String) → 1 ≤ length (distinct (g ∷ gs))
unfolding distinct
distinct-one g [] = omega arith
distinct-one g (h ∷ gs) = ground (arith, distinct-one h gs)
