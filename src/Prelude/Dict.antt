-- ===== src/Prelude/Dict.antt =====
-- Python's dict, in insertion order, over keys with a Boolean equality.
use text.Mathlib.Text.{◌==◌ as str_eq}
use text.Mathlib.TextEquality.{eq_iff}
use event_alpha.Prelude.{
  ℕ, String, ◌≡◌, ◌≢◌, refl, sym, ap, ◌∙◌, Bool-cases, ◌↔◌, ◌⊎◌, inl, inr, Bool, true, ◌&&◌, List,
  [], ◌∷◌, Option, none, some, arith, ◌==◌, ==_iff, In, if◌then◌else◌,
}

-- A type whose values a dict takes as keys.
pub record Key (K : Type 0) : Type 0 where
  pub same : K → K → Bool
  pub same_iff : (a b : K) → (same a b ≡ true) ↔ (a ≡ b)

instance abbrev pub ℕ_key : Key ℕ
ℕ_key = record { same = ◌==◌; same_iff = ==_iff }

instance abbrev pub string_key : Key String
string_key = record { same = str_eq; same_iff = eq_iff }

pub pair_same_iff :
    {J K : Type 0} (j : Key J) (k : Key K) (a b : J × K)
    → (j.same a.0 b.0 && k.same a.1 b.1 ≡ true) ↔ (a ≡ b)
pair_same_iff j k (a, a') (b, b') = (
  λ h. ground (arith, j.same_iff a b, k.same_iff a' b'),
  λ h. ground (arith, j.same_iff a b, k.same_iff a' b'),
)

abbrev pub pair_key : {J K : Type 0} → Key J → Key K → Key (J × K)
pair_key j k = record {
  same = λ a b. j.same a.0 b.0 && k.same a.1 b.1;
  same_iff = pair_same_iff j k;
}

abbrev pub Dict : Type 0 → Type 0 → Type 0
Dict K V = List (K × V)

module _ {K V : Type 0} where
  -- d.values()
  unfoldable pub values : Dict K V → List V
  values [] = []
  values ((k, v) ∷ d) = v ∷ values d

module _ {K V : Type 0} (key : Key K) where
  -- d.get(k)
  unfoldable pub lookup : K → Dict K V → Option V
  lookup k [] = none
  lookup k ((j, v) ∷ d) = if key.same j k then some v else lookup k d

  -- d[k] = v
  unfoldable pub insert : K → V → Dict K V → Dict K V
  insert k v [] = (k, v) ∷ []
  insert k v ((j, w) ∷ d) = if key.same j k then (j, v) ∷ d else (j, w) ∷ insert k v d

  pub lookup-insert :
      (j k : K) (v : V) (d : Dict K V)
      → lookup j (insert k v d) ≡ (if key.same k j then some v else lookup j d)
  unfolding lookup insert
  lookup-insert j k v [] = refl
  lookup-insert j k v ((i, w) ∷ d) =
      ground (arith, key.same_iff k j, key.same_iff i k, key.same_iff i j, lookup-insert j k v d)

  pub lookup-insert_self : (k : K) (v : V) (d : Dict K V) → lookup k (insert k v d) ≡ some v
  lookup-insert_self k v d = ground (arith, lookup-insert k k v d, key.same_iff k k)

  pub lookup-insert_ne :
      (j k : K) (v : V) (d : Dict K V) → k ≢ j → lookup j (insert k v d) ≡ lookup j d
  lookup-insert_ne j k v d h = ground (arith, lookup-insert j k v d, key.same_iff k j)

  -- What is found after an assignment was assigned, or was there before.
  pub insert-found :
      (j k : K) (u v : V) (d : Dict K V)
      → lookup j (insert k v d) ≡ some u
      → ((k ≡ j) × (v ≡ u)) ⊎ (lookup j d ≡ some u)
  insert-found j k u v d h = ground (arith, lookup-insert j k v d, key.same_iff k j)

  -- Each key stands once.
  abbrev pub NodupKeys : Dict K V → Type 0
  NodupKeys [] = Unit
  NodupKeys ((k, v) ∷ d) = (lookup k d ≡ none) × NodupKeys d

  pub insert-NodupKeys : (k : K) (v : V) (d : Dict K V) → NodupKeys d → NodupKeys (insert k v d)
  unfolding insert lookup
  insert-NodupKeys k v [] h = (refl, tt)
  insert-NodupKeys k v ((j, w) ∷ d) (fresh, rest) = ground (
    arith,
    insert-NodupKeys k v d rest,
    lookup-insert j k v d,
    key.same_iff j k,
    key.same_iff k j,
  )

  -- The values are what the keys give.
  pub lookup-In : (k : K) (v : V) (d : Dict K V) → lookup k d ≡ some v → In v (values d)
  unfolding lookup values
  lookup-In k v [] h = cc
  lookup-In k v ((j, w) ∷ d) h = ground (arith, lookup-In k v d)

  pub In-lookup :
      (v : V) (d : Dict K V) → NodupKeys d → In v (values d) → (k : K) × (lookup k d ≡ some v)
  unfolding lookup values
  In-lookup v [] u m = absurd m
  In-lookup v ((j, w) ∷ d) u (inl e) = (j, ground (arith, key.same_iff j j))
  In-lookup v ((j, w) ∷ d) (fresh, u) (inr m) =
      let (k, found) = In-lookup v d u m in (k, ground (arith, key.same_iff j k))

  -- The assignments of a loop, in order.
  unfoldable pub insert_all : List (K × V) → Dict K V → Dict K V
  insert_all [] d = d
  insert_all ((k, v) ∷ entries) d = insert_all entries (insert k v d)

  pub insert_all-found :
      (k : K) (v : V) (entries : List (K × V)) (d : Dict K V)
      → lookup k (insert_all entries d) ≡ some v
      → In (k, v) entries ⊎ (lookup k d ≡ some v)
  unfolding insert_all
  insert_all-found k v [] d h = inr h
  insert_all-found k v ((j, w) ∷ entries) d h =
      elim (insert_all-found k v entries (insert j w d) h) [
        | inl m ↦ inl (inr m)
        | inr before ↦ elim (insert-found k j v w d before) [
          | inl (is_key, is_value) ↦ inl (inl (cc (is_key, is_value)))
          | inr older ↦ inr older
        ]
      ]

  insert_all-kept :
      (k : K) (v : V) (entries : List (K × V)) (d : Dict K V)
      → lookup k d ≡ some v
      → (w : V) × (lookup k (insert_all entries d) ≡ some w)
  unfolding insert_all
  insert_all-kept k v [] d h = (v, h)
  insert_all-kept k v ((j, u) ∷ entries) d h = elim (Bool-cases (key.same j k)) [
    | inl same ↦ insert_all-kept k u entries (insert j u d) (lookup-insert k j u d ∙ rw same refl)
    | inr other ↦ insert_all-kept k v entries (insert j u d) (lookup-insert k j u d ∙ rw other h)
  ]

  pub insert_all-In :
      (k : K) (v : V) (entries : List (K × V)) (d : Dict K V)
      → In (k, v) entries
      → (w : V) × (lookup k (insert_all entries d) ≡ some w)
  unfolding insert_all
  insert_all-In k v [] d m = absurd m
  insert_all-In k v ((j, u) ∷ entries) d (inl e) =
      insert_all-kept k v entries (insert j u d)
        (ap (λ p. lookup k (insert p.0 p.1 d)) (sym e) ∙ lookup-insert_self k v d)
  insert_all-In k v ((j, u) ∷ entries) d (inr m) = insert_all-In k v entries (insert j u d) m
