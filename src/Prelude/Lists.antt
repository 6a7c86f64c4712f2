-- ===== src/Prelude/Lists.antt =====
-- Lists over the native numbers: lengths, membership by recursion, filters by Boolean tests.
use Prim.Native.Nat.{ℕ, suc, ◌+◌, ◌≤◌, ◌<◌}
use mathlib.Core.Path.{◌≡◌, refl, ap}
use mathlib.Core.Logic.{◌⊎◌, inl, inr}
use mathlib.Core.Bool.{Bool, true}
use mathlib.Core.List.{List, [], ◌∷◌, ◌++◌, map, reverse, reverse-cons}
use native.Mathlib.Omega.{arith}
use event_alpha.Prelude.Tests.{if◌then◌else◌}

module _ {ℓ} {A : Type ℓ} where
  abbrev pub length : List A → ℕ
  length [] = 0
  length (x ∷ xs) = suc (length xs)

  abbrev pub All {κ} : (A → Type κ) → List A → Type κ
  All P [] = Unit
  All P (x ∷ xs) = P x × All P xs

  -- A comprehension `[x for x in xs if p(x)]`.
  unfoldable pub keep : (A → Bool) → List A → List A
  keep p [] = []
  keep p (x ∷ xs) = let rest = keep p xs in if p x then x ∷ rest else rest

  pub length-keep-le : (p : A → Bool) (xs : List A) → length (keep p xs) ≤ length xs
  unfolding keep
  length-keep-le p [] = omega arith
  length-keep-le p (x ∷ xs) = ground (arith, length-keep-le p xs)

-- Membership that keeps the position, which the tactics take apart.
abbrev pub In : {A : Type 0} → A → List A → Type 0
In a [] = ⊥
In a (x ∷ xs) = (a ≡ x) ⊎ In a xs

module _ {A : Type 0} where
  pub In-keep : (p : A → Bool) (a : A) (xs : List A) → In a xs → p a ≡ true → In a (keep p xs)
  unfolding keep
  In-keep p a [] h t = absurd h
  In-keep p a (x ∷ xs) (inl e) t = ground arith
  In-keep p a (x ∷ xs) (inr h) t = ground (arith, In-keep p a xs h t)

  pub keep-In : (p : A → Bool) (a : A) (xs : List A) → In a (keep p xs) → In a xs × (p a ≡ true)
  unfolding keep
  keep-In p a [] h = absurd h
  keep-In p a (x ∷ xs) h = ground (arith, keep-In p a xs)

  pub In-append : (a : A) (xs ys : List A) → In a (xs ++ ys) → In a xs ⊎ In a ys
  In-append a [] ys h = inr h
  In-append a (x ∷ xs) ys h = ground (arith, In-append a xs ys)

  pub append-In : (a : A) (xs ys : List A) → In a xs ⊎ In a ys → In a (xs ++ ys)
  append-In a [] ys h = ground arith
  append-In a (x ∷ xs) ys h = ground (arith, append-In a xs ys)

  pub In-reverse : (a : A) (xs : List A) → In a (reverse xs) → In a xs
  In-reverse a [] h = h
  In-reverse a (x ∷ xs) h = elim (In-append a (reverse xs) (x ∷ []) (rw reverse-cons at h)) [
    | inl m ↦ inr (In-reverse a xs m)
    | inr m ↦ elim m [ inl e ↦ inl e | inr n ↦ absurd n ]
  ]

  pub reverse-In : (a : A) (xs : List A) → In a xs → In a (reverse xs)
  reverse-In a [] h = h
  reverse-In a (x ∷ xs) h = rw reverse-cons (
      append-In a (reverse xs) (x ∷ [])
        (elim h [ inl e ↦ inr (inl e) | inr m ↦ inl (reverse-In a xs m) ]))

module _ {A B : Type 0} (f : A → B) where
  pub In-map : (b : B) (xs : List A) → In b (map f xs) → (a : A) × In a xs × (b ≡ f a)
  In-map b [] h = absurd h
  In-map b (x ∷ xs) (inl e) = (x, inl refl, e)
  In-map b (x ∷ xs) (inr m) = let (a, found, e) = In-map b xs m in (a, inr found, e)

  pub map-In : (a : A) (xs : List A) → In a xs → In (f a) (map f xs)
  map-In a [] h = h
  map-In a (x ∷ xs) (inl e) = inl (ap f e)
  map-In a (x ∷ xs) (inr m) = inr (map-In a xs m)

module _ {ℓ} {A : Type ℓ} where
  pub length-append : (xs ys : List A) → length (xs ++ ys) ≡ length xs + length ys
  length-append [] ys = omega arith
  length-append (x ∷ xs) ys = omega (arith, length-append xs ys)

  pub length-reverse : (xs : List A) → length (reverse xs) ≡ length xs
  length-reverse [] = refl
  length-reverse (x ∷ xs) =
      rw reverse-cons (omega (arith, length-append (reverse xs) (x ∷ []), length-reverse xs))

  pub length-map {κ} : {B : Type κ} (f : A → B) (xs : List A) → length (map f xs) ≡ length xs
  length-map f [] = refl
  length-map f (x ∷ xs) = ap suc (length-map f xs)

-- Instants and other numbers, each later than the one before.
abbrev pub Ascending : List ℕ → Type 0
Ascending [] = Unit
Ascending (x ∷ xs) = All (λ y. x < y) xs × Ascending xs

pub All-of_In {ℓ} :
    {A : Type 0} (P : A → Type ℓ) (xs : List A) → ((a : A) → In a xs → P a) → All P xs
All-of_In P [] h = tt
All-of_In P (x ∷ xs) h = (h x (inl refl), All-of_In P xs (λ a m. h a (inr m)))

pub Ascending-append :
    (xs : List ℕ) (y : ℕ) → Ascending xs → ((x : ℕ) → In x xs → x < y) → Ascending (xs ++ y ∷ [])
Ascending-append [] y h k = (tt, tt)
Ascending-append (x ∷ xs) y (first, rest) k =
    (All-snoc xs first (k x (inl refl)), Ascending-append xs y rest (λ z m. k z (inr m)))
  where
    All-snoc : (zs : List ℕ) → All (λ z. x < z) zs → x < y → All (λ z. x < z) (zs ++ y ∷ [])
    All-snoc [] a l = (l, tt)
    All-snoc (z ∷ zs) (b, a) l = (b, All-snoc zs a l)
