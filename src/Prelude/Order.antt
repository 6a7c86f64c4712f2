-- ===== src/Prelude/Order.antt =====
-- ORDER BY and sorted(): a stable insertion sort by a total preorder, its first element, and the
-- lexicographic order of rank tuples.
use mathlib.Core.List.{head?}
use event_alpha.Prelude.{
  ℕ, ◌+◌, ◌≡◌, refl, sym, ap, ◌∙◌, ◌⊎◌, inl, inr, Bool, true, false, List, [], ◌∷◌, Option, none,
  some, arith, ltb, ◌==◌, length, In, Bool-cases, Option-cases, if◌then◌else◌,
}

-- Tuples of numbers are compared at the first place where they differ.
unfoldable pub lex_le : List ℕ → List ℕ → Bool
lex_le [] bs = true
lex_le (a ∷ as') [] = false
lex_le (a ∷ as') (b ∷ bs) =
    let rest = lex_le as' bs in if ltb a b then true else if a == b then rest else false

pub lex_le_total : (as' bs : List ℕ) → (lex_le as' bs ≡ true) ⊎ (lex_le bs as' ≡ true)
unfolding lex_le
lex_le_total [] bs = inl refl
lex_le_total (a ∷ as') [] = inr refl
lex_le_total (a ∷ as') (b ∷ bs) = ground (arith, lex_le_total as' bs)

pub lex_le_trans :
    (as' bs cs : List ℕ) → lex_le as' bs ≡ true → lex_le bs cs ≡ true → lex_le as' cs ≡ true
unfolding lex_le
lex_le_trans [] bs cs h k = refl
lex_le_trans (a ∷ as') [] cs h k = ground arith
lex_le_trans (a ∷ as') (b ∷ bs) [] h k = ground arith
lex_le_trans (a ∷ as') (b ∷ bs) (c ∷ cs) h k = ground (arith, lex_le_trans as' bs cs)

pub lex_le_antisymm : (as' bs : List ℕ) → lex_le as' bs ≡ true → lex_le bs as' ≡ true → as' ≡ bs
unfolding lex_le
lex_le_antisymm [] [] h k = refl
lex_le_antisymm [] (b ∷ bs) h k = ground arith
lex_le_antisymm (a ∷ as') [] h k = ground arith
lex_le_antisymm (a ∷ as') (b ∷ bs) h k = ground (arith, lex_le_antisymm as' bs)

module _ {A : Type 0} (le : A → A → Bool) where
  unfoldable pub insert : A → List A → List A
  insert x [] = x ∷ []
  insert x (y ∷ ys) = let rest = insert x ys in if le x y then x ∷ y ∷ ys else y ∷ rest

  unfoldable pub sort : List A → List A
  unfolding insert
  sort [] = []
  sort (x ∷ xs) = insert x (sort xs)

  abbrev pub Below : A → List A → Type 0
  Below x ys = (y : A) → In y ys → le x y ≡ true

  abbrev pub Sorted : List A → Type 0
  Sorted [] = Unit
  Sorted (x ∷ xs) = Below x xs × Sorted xs

  pub insert-In : (x a : A) (ys : List A) → In a (insert x ys) → (a ≡ x) ⊎ In a ys
  unfolding insert
  insert-In x a [] h = h
  insert-In x a (y ∷ ys) h = ground (arith, insert-In x a ys)

  pub In-insert : (x a : A) (ys : List A) → (a ≡ x) ⊎ In a ys → In a (insert x ys)
  unfolding insert
  In-insert x a [] h = h
  In-insert x a (y ∷ ys) h = ground (arith, In-insert x a ys)

  pub sort-In : (a : A) (xs : List A) → In a (sort xs) → In a xs
  unfolding sort
  sort-In a [] h = h
  sort-In a (x ∷ xs) h = ground (arith, insert-In x a (sort xs), sort-In a xs)

  pub In-sort : (a : A) (xs : List A) → In a xs → In a (sort xs)
  unfolding sort
  In-sort a [] h = h
  In-sort a (x ∷ xs) h = ground (arith, In-insert x a (sort xs), In-sort a xs)

  pub length-insert : (x : A) (ys : List A) → length (insert x ys) ≡ length ys + 1
  unfolding insert
  length-insert x [] = omega arith
  length-insert x (y ∷ ys) = ground (arith, length-insert x ys)

  pub length-sort : (xs : List A) → length (sort xs) ≡ length xs
  unfolding sort
  length-sort [] = refl
  length-sort (x ∷ xs) = omega (arith, length-insert x (sort xs), length-sort xs)

  -- The first row of a sorted result, if there is one.
  unfoldable pub top : List A → Option A
  unfolding sort
  top xs = head? (sort xs)

  module _ (total : (x y : A) → (le x y ≡ true) ⊎ (le y x ≡ true))
      (trans : (x y z : A) → le x y ≡ true → le y z ≡ true → le x z ≡ true) where
    insert-Sorted : (x : A) (ys : List A) → Sorted ys → Sorted (insert x ys)
    unfolding insert
    insert-Sorted x [] h = ((λ z m. absurd m), tt)
    insert-Sorted x (y ∷ ys) h = elim (Bool-cases (le x y)) [
      | inl before ↦
          rw before
            ((λ z m. elim m [ inl e ↦ rw e before | inr m' ↦ trans x y z before (h.0 z m') ]), h)
      | inr after ↦ rw after (
        (λ z m. elim (insert-In x z ys m) [
          | inl e ↦ rw e (elim (total x y) [ inl p ↦ cc | inr p ↦ p ])
          | inr m' ↦ h.0 z m'
        ]),
        insert-Sorted x ys h.1,
      )
    ]

    pub sort-Sorted : (xs : List A) → Sorted (sort xs)
    unfolding sort
    sort-Sorted [] = tt
    sort-Sorted (x ∷ xs) = insert-Sorted x (sort xs) (sort-Sorted xs)

    head-Below : (ys : List A) (x : A) → Sorted ys → head? ys ≡ some x → In x ys × Below x ys
    head-Below [] x h e = absurd (cc)
    head-Below (y ∷ ys) x h e =
        let first : y ≡ x = cc in
        rw (← first) (
          inl refl,
          λ z m. elim m [
            | inl same ↦ rw same (elim (total y y) [ inl p ↦ p | inr p ↦ p ])
            | inr later ↦ h.0 z later
          ],
        )

    -- The first element of the sorted list is one of the list, and no element is before it.
    pub top-some : (xs : List A) (x : A) → top xs ≡ some x → In x xs × Below x xs
    unfolding top
    top-some xs x h =
        let (found, first) = head-Below (sort xs) x (sort-Sorted xs) h in
        (sort-In x xs found, λ y m. first y (In-sort y xs m))

  head-none : (ys : List A) → head? ys ≡ none → (x : A) → ¬ In x ys
  head-none [] h x m = m
  head-none (y ∷ ys) h x m = cc

  pub top-none : (xs : List A) → top xs ≡ none → (x : A) → ¬ In x xs
  unfolding top
  top-none xs h x m = head-none (sort xs) h x (In-sort x xs m)

  module _ (total : (x y : A) → (le x y ≡ true) ⊎ (le y x ≡ true))
      (trans : (x y z : A) → le x y ≡ true → le y z ≡ true → le x z ≡ true) where
    -- Where the order is antisymmetric on the elements, the first one depends only on which
    -- elements there are, and not on the order in which they are listed.
    pub top_unique :
        (xs ys : List A)
        → ((x y : A) → In x xs → In y xs → le x y ≡ true → le y x ≡ true → x ≡ y)
        → ((x : A) → In x xs → In x ys)
        → ((x : A) → In x ys → In x xs)
        → top xs ≡ top ys
    top_unique xs ys anti to back = elim (Option-cases (top xs)) [
      | inl none_xs ↦ elim (Option-cases (top ys)) [
        | inl none_ys ↦ none_xs ∙ sym none_ys
        | inr (y, some_ys) ↦
            absurd (top-none xs none_xs y (back y (top-some total trans ys y some_ys).0))
      ]
      | inr (x, some_xs) ↦ elim (Option-cases (top ys)) [
        | inl none_ys ↦ absurd (top-none ys none_ys x (to x (top-some total trans xs x some_xs).0))
        | inr (y, some_ys) ↦
            let (x_in, x_first) = top-some total trans xs x some_xs in
            let (y_in, y_first) = top-some total trans ys y some_ys in
            some_xs
            ∙ ap some
                (anti x y x_in (back y y_in) (x_first y (back y y_in)) (y_first x (to x x_in)))
            ∙ sym some_ys
      ]
    ]
