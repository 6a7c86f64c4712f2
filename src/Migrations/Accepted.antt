-- ===== src/Migrations/Accepted.antt =====
-- What a run of the migrations comes to.
use mathlib.Core.Path.{subst}
use event_alpha.Prelude.{
  ◌≡◌, ◌≢◌, refl, sym, ap, ◌∙◌, ◌⊎◌, inl, inr, String, true, false, List, [], ◌∷◌, map, Option,
  none, some, is_none, All, keep, Bool-cases,
}
use event_alpha.Prelude.Dict.{Dict, string_key, lookup}
use event_alpha.Errors.{Result, ok, err}
use event_alpha.Exec.{after, Returns, Returns-ok, Returns-map, Returns-both}
use event_alpha.Contracts.Event.{Digest}
use event_alpha.Migrations.{
  MigrationFile, MigrationRuntime, Database, MigrationLedger, MigrationDb, migration_checksum,
  legacy_byte_checksum, migration_paths, checksums_of, domain_tables, ledger_columns, meets, within,
  has_unavailable, apply_paths, apply_migrations, rows_of, available, finished, ledger_ready,
  name_in,
}
use event_alpha.Migrations.Files.{unavailable-lookup, migration_paths-DistinctNames}
use event_alpha.Migrations.Executed.{statements_of, executed, Ran, pending_of, apply_paths-Ran}
use event_alpha.Migrations.Ledger.{DistinctNames, Looped, first_of, apply_paths-Looped}

first_of-covered :
    (a b : Option Digest)
    → ((c : Digest) → b ≡ some c → (d : Digest) × (a ≡ some d))
    → first_of a b ≡ a
first_of-covered (some a) b h = refl
first_of-covered none none h = refl
first_of-covered none (some b) h = let (d, e) = h b refl in absurd (cc e)

module _ (runtime : MigrationRuntime) (database : Database) where
  abbrev Db : Type 0
  Db = MigrationDb runtime database

  -- What a run of the migrations that returns has done: it has a ledger with the columns and with
  -- exactly the checksums of the files; it has executed the statements of the files that had no
  -- row, in order and no others, and names these files; and each row that there was is that of a
  -- file, with its checksum or the one of its bytes.
  pub record Applied (paths : List MigrationFile) (before : Db) (names : List String) (later : Db)
      : Type 0 where
    pub ledger : MigrationLedger
    pub is_ledger : later.ledger ≡ some ledger
    pub complete : within ledger_columns ledger.columns ≡ true
    pub recorded :
        (name : String)
        → lookup string_key name ledger.rows ≡ lookup string_key name (checksums_of runtime paths)
    pub pending :
        names
        ≡ map
            (λ path. path.name)
            (keep
              (λ path. is_none (lookup string_key path.name (rows_of runtime database before)))
              paths)
    pub accepted :
        All
          (λ path.
            (lookup string_key path.name (rows_of runtime database before) ≡ none)
            ⊎ (lookup string_key path.name (rows_of runtime database before)
                ≡ some (migration_checksum runtime path))
            ⊎ (lookup string_key path.name (rows_of runtime database before)
                ≡ some (legacy_byte_checksum runtime path)))
          paths
    pub ran :
        executed database
          (statements_of runtime (
            keep
              (λ path. is_none (lookup string_key path.name (rows_of runtime database before)))
              paths))
          before.domain
        ≡ (ok tt, later.domain)
    pub versioned :
        (before.ledger ≢ none) ⊎ (meets (database.table_names before.domain) domain_tables ≡ false)

  refl-All :
      (applied : Dict String Digest) (paths : List MigrationFile)
      → All
          (λ path. lookup string_key path.name applied ≡ lookup string_key path.name applied)
          paths
  refl-All applied [] = tt
  refl-All applied (path ∷ paths) = (refl, refl-All applied paths)

  available-Applied :
      (paths : List MigrationFile) (before db : Db) (ledger : MigrationLedger)
      → db.ledger ≡ some ledger
      → db.domain ≡ before.domain
      → ledger.rows ≡ rows_of runtime database before
      → within ledger_columns ledger.columns ≡ true
      → DistinctNames paths
      → (before.ledger ≢ none) ⊎ (meets (database.table_names before.domain) domain_tables ≡ false)
      → has_unavailable ledger.rows (checksums_of runtime paths) ≡ false
      → Returns (Applied paths before) (apply_paths runtime database ledger.rows paths db)
  available-Applied paths before db ledger h unmoved same complete ne versioned none_missing =
      let out = apply_paths runtime database ledger.rows paths db in
      Returns-map
        (λ names s.
          Looped runtime database ledger.rows paths ledger names s
          × Ran runtime database
              (statements_of runtime (pending_of runtime database ledger.rows paths)) db.domain
              s.domain)
        (Applied paths before) out
        (Returns-both (Looped runtime database ledger.rows paths ledger) _ out
          (apply_paths-Looped runtime database ledger.rows paths ledger db h ne
            (refl-All ledger.rows paths))
          (apply_paths-Ran runtime database ledger.rows paths db))
        (λ names s (((later, is_later, columns, rows), are_named, accepted), statements). record {
          ledger = later;
          is_ledger = is_later;
          complete = ap (within ledger_columns) columns ∙ complete;
          recorded = λ name.
              rows name
              ∙ first_of-covered (lookup string_key name (checksums_of runtime paths))
                  (lookup string_key name ledger.rows)
                  (λ c found.
                    unavailable-lookup ledger.rows (checksums_of runtime paths) none_missing name c
                      found);
          pending =
              subst
                (λ (rows : Dict String Digest).
                  names
                  ≡ map (λ path. path.name)
                      (keep (λ path. is_none (lookup string_key path.name rows)) paths))
                same are_named;
          accepted =
              subst
                (λ (rows : Dict String Digest).
                  All
                    (λ path.
                      (lookup string_key path.name rows ≡ none)
                      ⊎ (lookup string_key path.name rows ≡ some (migration_checksum runtime path))
                      ⊎ (lookup string_key path.name rows
                          ≡ some (legacy_byte_checksum runtime path)))
                    paths)
                same accepted;
          ran =
              subst
                (λ (rows : Dict String Digest).
                  Ran runtime database
                    (statements_of runtime (pending_of runtime database rows paths)) before.domain
                    s.domain)
                same
                (subst
                  (λ d.
                    Ran runtime database
                      (statements_of runtime (pending_of runtime database ledger.rows paths)) d
                      s.domain)
                  unmoved statements);
          versioned = versioned;
        })

  -- The rest of a run, once the ledger is there.
  read-Applied :
      (paths : List MigrationFile) (before db : Db) (ledger : MigrationLedger)
      → db.ledger ≡ some ledger
      → db.domain ≡ before.domain
      → ledger.rows ≡ rows_of runtime database before
      → within ledger_columns ledger.columns ≡ true
      → DistinctNames paths
      → (before.ledger ≢ none) ⊎ (meets (database.table_names before.domain) domain_tables ≡ false)
      → Returns (Applied paths before) (available runtime database paths db)
  read-Applied paths before db ledger h unmoved same complete ne versioned =
      let is_rows : rows_of runtime database db ≡ ledger.rows = rw h refl in
      elim (Bool-cases
        (has_unavailable (rows_of runtime database db) (checksums_of runtime paths))) [
          | inl missing ↦ rw missing tt
          | inr fine ↦ rw fine (
              subst
                (λ (rows : Dict String Digest).
                  Returns (Applied paths before) (apply_paths runtime database rows paths db))
                (sym is_rows)
                (available-Applied paths before db ledger h unmoved same complete ne versioned (
                  ap
                    (λ (rows : Dict String Digest).
                      has_unavailable rows (checksums_of runtime paths))
                    (sym is_rows)
                  ∙ fine)))
        ]

  finished-Returns :
      (P : List String → Db → Type 0) (before : Db) (out : Result (List String) × Db)
      → Returns P out
      → Returns P (finished runtime database before out)
  finished-Returns P before (err error, db) h = tt
  finished-Returns P before (ok names, db) h = h

  ready-Applied :
      (paths : List MigrationFile) (before : Db) (ledger : Option MigrationLedger)
      → before.ledger ≡ ledger
      → DistinctNames paths
      → Returns (Applied paths before) (
          after
            (ledger_ready runtime database ledger before).0
            (λ _. available runtime database paths)
            (ledger_ready runtime database ledger before).1)
  unfolding within name_in
  ready-Applied paths before none h ne =
      elim (Bool-cases (meets (database.table_names before.domain) domain_tables)) [
        | inl unversioned ↦ rw unversioned tt
        | inr new ↦ rw new (
            read-Applied paths before
              (record before { ledger = some (record { columns = ledger_columns; rows = [] }) })
              (record { columns = ledger_columns; rows = [] }) refl refl (rw h refl) refl ne
              (inr new))
      ]
  ready-Applied paths before (some ledger) h ne =
      elim (Bool-cases (within ledger_columns ledger.columns)) [
        | inl complete ↦ rw complete (
            read-Applied paths before before ledger h refl (rw h refl) complete ne
              (inl (λ e. cc (e, h))))
        | inr incomplete ↦ rw incomplete tt
      ]

  -- A run of the migrations that returns has left a ledger with the columns and with exactly the
  -- checksums of the files of the directory, has executed on the database exactly the statements of
  -- the files that had no row, in the order of their names, and returns these names; it has found every row to be that of a file, with its checksum or the one of its
  -- bytes, and a database without a ledger to have none of the tables of the domain.
  pub apply_migrations-Applied :
      (directory : List MigrationFile) (before later : Db) (names : List String)
      → DistinctNames directory
      → apply_migrations runtime database directory before ≡ (ok names, later)
      → Applied (migration_paths runtime directory) before names later
  unfolding apply_migrations
  apply_migrations-Applied directory before later names ne h =
      let paths = migration_paths runtime directory in
      let out =
        after (ledger_ready runtime database before.ledger before).0
          (λ _. available runtime database paths)
          (ledger_ready runtime database before.ledger before).1 in
      Returns-ok (Applied paths before) (finished runtime database before out) names later
        (finished-Returns (Applied paths before) before out (
          ready-Applied paths before before.ledger refl
            (migration_paths-DistinctNames runtime directory ne)))
        h
