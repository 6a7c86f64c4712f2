-- ===== src/Migrations/Again.antt =====
-- A run of the migrations after one that has returned.
use event_alpha.Prelude.{
  ◌≡◌, ◌≢◌, refl, ap, ◌∙◌, String, true, false, List, [], ◌∷◌, some, All, ==_iff,
}
use event_alpha.Prelude.Dict.{
  Dict, string_key, lookup, insert, lookup-insert_self, lookup-insert_ne,
}
use event_alpha.Errors.{Result, ok}
use event_alpha.Contracts.Event.{Digest}
use event_alpha.Migrations.{
  MigrationFile, MigrationRuntime, Database, MigrationLedger, MigrationDb, migration_checksum,
  migration_paths, checksums_of, has_unavailable, ledger_columns, within, apply_paths,
  apply_migrations, rows_of, ledger_ready, available, finished,
}
use event_alpha.Exec.{after}
use event_alpha.Migrations.Files.{same-available, migration_paths-DistinctNames}
use event_alpha.Migrations.Accepted.{apply_migrations-Applied}
use event_alpha.Migrations.Ledger.{DistinctNames}

module _ (runtime : MigrationRuntime) where
  abbrev HasChecksums : Dict String Digest → List MigrationFile → Type 0
  HasChecksums rows paths =
      All (λ path. lookup string_key path.name rows ≡ some (migration_checksum runtime path)) paths

  kept-checksums :
      (path : MigrationFile) (checksum : Digest) (rows : Dict String Digest)
      (paths : List MigrationFile)
      → All (λ other. path.name ≢ other.name) paths
      → HasChecksums rows paths
      → HasChecksums (insert string_key path.name checksum rows) paths
  kept-checksums path checksum rows [] h k = tt
  kept-checksums path checksum rows (other ∷ paths) (ne, h) (k, l) = (
    lookup-insert_ne string_key other.name path.name checksum rows ne ∙ k,
    kept-checksums path checksum rows paths h l,
  )

  checksums_of-HasChecksums :
      (paths : List MigrationFile)
      → DistinctNames paths
      → HasChecksums (checksums_of runtime paths) paths
  unfolding checksums_of
  checksums_of-HasChecksums [] h = tt
  checksums_of-HasChecksums (path ∷ paths) (ne, h) = (
    lookup-insert_self string_key path.name (migration_checksum runtime path)
        (checksums_of runtime paths),
    kept-checksums path (migration_checksum runtime path) (checksums_of runtime paths) paths ne
        (checksums_of-HasChecksums paths h),
  )

  same-HasChecksums :
      (rows checksums : Dict String Digest) (paths : List MigrationFile)
      → ((name : String) → lookup string_key name rows ≡ lookup string_key name checksums)
      → HasChecksums checksums paths
      → HasChecksums rows paths
  same-HasChecksums rows checksums [] h k = tt
  same-HasChecksums rows checksums (path ∷ paths) h (k, l) =
      (h path.name ∙ k, same-HasChecksums rows checksums paths h l)

  module _ (database : Database) where
    abbrev Db : Type 0
    Db = MigrationDb runtime database

    apply_paths_none :
        (rows : Dict String Digest) (paths : List MigrationFile) (db : Db)
        → HasChecksums rows paths
        → apply_paths runtime database rows paths db ≡ (ok [], db)
    unfolding apply_paths
    apply_paths_none rows [] db h = refl
    apply_paths_none rows (path ∷ paths) db (h, k) =
        let checksum = migration_checksum runtime path in
        let same = (==_iff checksum checksum).1 refl in
        rw h (rw same (rw (apply_paths_none rows paths db k) refl))

    run_unchanged :
        (directory : List MigrationFile) (db : Db) (ledger : MigrationLedger)
        → db.ledger ≡ some ledger
        → within ledger_columns ledger.columns ≡ true
        → has_unavailable ledger.rows (checksums_of runtime (migration_paths runtime directory))
          ≡ false
        → apply_paths runtime database ledger.rows (migration_paths runtime directory) db
          ≡ (ok [], db)
        → apply_migrations runtime database directory db ≡ (ok [], db)
    unfolding apply_migrations
    run_unchanged directory db ledger h complete fine unchanged =
        let paths = migration_paths runtime directory in
        let is_rows : rows_of runtime database db ≡ ledger.rows = rw h refl in
        let is_ready : ledger_ready runtime database db.ledger db ≡ (ok tt, db) =
          ap (λ l. ledger_ready runtime database l db) h ∙ rw complete refl in
        let is_fine : has_unavailable (rows_of runtime database db) (checksums_of runtime paths)
            ≡ false =
          ap (λ (rows : Dict String Digest). has_unavailable rows (checksums_of runtime paths))
            is_rows
          ∙ fine in
        let is_unchanged : apply_paths runtime database (rows_of runtime database db) paths db
            ≡ (ok [], db) =
          ap (λ (rows : Dict String Digest). apply_paths runtime database rows paths db) is_rows
          ∙ unchanged in
        let is_available : available runtime database paths db ≡ (ok [], db) =
          rw is_fine is_unchanged in
        ap
          (λ (r : Result (Unit {0}) × Db).
            finished runtime database db (after r.0 (λ _. available runtime database paths) r.1))
          is_ready
        ∙ ap (finished runtime database db) is_available

    -- After a run that has returned, the next one with the same files applies nothing and changes
    -- nothing.
    pub apply_migrations_again :
        (directory : List MigrationFile) (before later : Db) (names : List String)
        → DistinctNames directory
        → apply_migrations runtime database directory before ≡ (ok names, later)
        → apply_migrations runtime database directory later ≡ (ok [], later)
    apply_migrations_again directory before later names ne h =
        let paths = migration_paths runtime directory in
        let applied = apply_migrations-Applied runtime database directory before later names ne h in
        let fine =
          same-available applied.ledger.rows (checksums_of runtime paths) applied.recorded in
        let unchanged = apply_paths_none applied.ledger.rows paths later (
          same-HasChecksums applied.ledger.rows (checksums_of runtime paths) paths applied.recorded
            (checksums_of-HasChecksums paths
              (migration_paths-DistinctNames runtime directory ne))) in
        run_unchanged directory later applied.ledger applied.is_ledger applied.complete fine
          unchanged
