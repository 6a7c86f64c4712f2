-- ===== src/Migrations/Files.antt =====
-- The rows without a file, and the names of the files once they are sorted.
use event_alpha.Prelude.{
  ◌≡◌, ◌≢◌, refl, sym, ap, ◌∙◌, inl, inr, String, false, List, [], ◌∷◌, none, some, is_none, arith,
  All, In, str_eq, eq_iff, Bool-cases, Option-cases,
}
use event_alpha.Prelude.Dict.{Dict, string_key, lookup}
use event_alpha.Prelude.Order.{sort, insert as insert_sorted}
use event_alpha.Contracts.Event.{Digest}
use event_alpha.Migrations.{MigrationFile, MigrationRuntime, migration_paths, has_unavailable}
use event_alpha.Migrations.Ledger.{DistinctNames}

-- The rows that have no file are found.
pub unavailable-lookup :
    (applied checksums : Dict String Digest)
    → has_unavailable applied checksums ≡ false
    → (name : String) (checksum : Digest) → lookup string_key name applied ≡ some checksum
    → (current : Digest) × (lookup string_key name checksums ≡ some current)
unfolding has_unavailable lookup
unavailable-lookup [] checksums h name checksum found = absurd (cc found)
unavailable-lookup ((version, c) ∷ applied) checksums h name checksum found =
    elim (Bool-cases (str_eq version name)) [
      | inl same ↦
          let is_version : version ≡ name = (eq_iff version name).0 same in
          elim (Option-cases (lookup string_key name checksums)) [
            | inl absent ↦
                let missing : lookup string_key version checksums ≡ none =
                  ap (λ n. lookup string_key n checksums) is_version ∙ absent in
                absurd (ground (arith, h, missing))
            | inr present ↦ present
          ]
      | inr different ↦
          unavailable-lookup applied checksums (ground (arith, h)) name checksum
            (ground (arith, found, different))
    ]

entry-lookup :
    (version : String) (c : Digest) (applied : Dict String Digest)
    → In (version, c) applied
    → (d : Digest) × (lookup string_key version applied ≡ some d)
unfolding lookup
entry-lookup version c [] m = absurd m
entry-lookup version c ((v, d) ∷ applied) m = elim (Bool-cases (str_eq v version)) [
  | inl same ↦ (d, rw same refl)
  | inr different ↦ elim m [
    | inl e ↦ absurd (ground (arith, different, eq_iff v version, ap (λ p. p.0) e))
    | inr later ↦ let (found, h) = entry-lookup version c applied later in (found, rw different h)
  ]
]

entries-available :
    (applied checksums : Dict String Digest)
    → ((version : String) (c : Digest)
        → In (version, c) applied
        → is_none (lookup string_key version checksums) ≡ false)
    → has_unavailable applied checksums ≡ false
unfolding has_unavailable
entries-available [] checksums h = refl
entries-available ((version, c) ∷ applied) checksums h =
    let first = h version c (inl refl) in
    let rest = entries-available applied checksums (λ v d m. h v d (inr m)) in
    ground (arith, first, rest)

-- Where the rows are those of the files, none is without a file.
pub same-available :
    (applied checksums : Dict String Digest)
    → ((name : String) → lookup string_key name applied ≡ lookup string_key name checksums)
    → has_unavailable applied checksums ≡ false
same-available applied checksums h = entries-available applied checksums (λ version c m.
    let (d, found) = entry-lookup version c applied m in ap is_none (sym (h version) ∙ found))

module _ (runtime : MigrationRuntime) where
  insert-All :
      (name : String) (path : MigrationFile) (paths : List MigrationFile)
      → name ≢ path.name
      → All (λ other. name ≢ other.name) paths
      → All
          (λ other. name ≢ other.name)
          (insert_sorted (λ a b. runtime.name_le a.name b.name) path paths)
  unfolding insert_sorted
  insert-All name path [] h k = (h, tt)
  insert-All name path (other ∷ paths) h (k, l) =
      elim (Bool-cases (runtime.name_le path.name other.name)) [
        | inl first ↦ rw first (h, (k, l))
        | inr later ↦ rw later (k, insert-All name path paths h l)
      ]

  insert-DistinctNames :
      (path : MigrationFile) (paths : List MigrationFile)
      → All (λ other. path.name ≢ other.name) paths
      → DistinctNames paths
      → DistinctNames (insert_sorted (λ a b. runtime.name_le a.name b.name) path paths)
  unfolding insert_sorted
  insert-DistinctNames path [] h k = (tt, tt)
  insert-DistinctNames path (other ∷ paths) (ne, h) (k, l) =
      elim (Bool-cases (runtime.name_le path.name other.name)) [
        | inl first ↦ rw first ((ne, h), (k, l))
        | inr later ↦ rw later (
          insert-All other.name path paths (λ e. ne (sym e)) k,
          insert-DistinctNames path paths h l,
        )
      ]

  sort-All :
      (name : String) (paths : List MigrationFile)
      → All (λ other. name ≢ other.name) paths
      → All (λ other. name ≢ other.name) (migration_paths runtime paths)
  unfolding migration_paths sort
  sort-All name [] h = tt
  sort-All name (path ∷ paths) (h, k) =
      insert-All name path (migration_paths runtime paths) h (sort-All name paths k)

  pub migration_paths-DistinctNames :
      (paths : List MigrationFile)
      → DistinctNames paths
      → DistinctNames (migration_paths runtime paths)
  unfolding migration_paths sort
  migration_paths-DistinctNames [] h = tt
  migration_paths-DistinctNames (path ∷ paths) (h, k) =
      insert-DistinctNames path (migration_paths runtime paths) (sort-All path.name paths h)
        (migration_paths-DistinctNames paths k)
