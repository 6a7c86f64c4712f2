-- ===== src/Migrations/Ledger.antt =====
-- What the loop over the migrations leaves in the ledger.
use mathlib.Core.Path.{subst}
use event_alpha.Prelude.{
  ℕ, ◌≡◌, ◌≢◌, refl, sym, ap, ◌∙◌, ◌⊎◌, inl, inr, String, List, [], ◌∷◌, ◌++◌, map, Option, none,
  some, is_none, arith, All, ◌==◌, ==_iff, str_eq, eq_iff, keep, if◌then◌else◌, Bool-cases,
}
use event_alpha.Prelude.Dict.{Dict, string_key, lookup, insert, lookup-insert}
use event_alpha.Errors.{ok}
use event_alpha.Exec.{Returns, after-Returns, state-Returns, pure, ◌>>=◌}
use event_alpha.Contracts.Event.{Digest}
use event_alpha.Migrations.{
  MigrationFile, MigrationRuntime, Database, MigrationLedger, MigrationDb, migration_checksum,
  legacy_byte_checksum, migration_statements, checksums_of, execute_all, write_row, apply_path,
  apply_paths,
}

-- A row that is found, or else another one.
abbrev pub first_of : Option Digest → Option Digest → Option Digest
first_of none b = b
first_of (some a) b = some a

-- Each name stands once.
abbrev pub DistinctNames : List MigrationFile → Type 0
DistinctNames [] = Unit
DistinctNames (path ∷ paths) = All (λ other. path.name ≢ other.name) paths × DistinctNames paths

module _ (runtime : MigrationRuntime) where
  absent-checksums :
      (name : String) (paths : List MigrationFile)
      → All (λ other. name ≢ other.name) paths
      → lookup string_key name (checksums_of runtime paths) ≡ none
  unfolding checksums_of lookup
  absent-checksums name [] h = refl
  absent-checksums name (path ∷ paths) (ne, others) =
      lookup-insert string_key name path.name (migration_checksum runtime path)
        (checksums_of runtime paths)
      ∙ ground (arith, eq_iff path.name name, absent-checksums name paths others)

  module _ (database : Database) where
    abbrev Db : Type 0
    Db = MigrationDb runtime database

    execute_all-ledger :
        (statements : List (List ℕ)) (db : Db)
        → Returns (λ _ (s : Db). s.ledger ≡ db.ledger) (execute_all runtime database statements db)
    unfolding execute_all
    execute_all-ledger [] db = refl
    execute_all-ledger (statement ∷ statements) db =
        after-Returns (λ _ (s : Db). s.ledger ≡ db.ledger) (λ _ (s : Db). s.ledger ≡ db.ledger)
          (database.exec_driver_sql statement db.domain).0
          (λ _. execute_all runtime database statements)
          (record db { domain = (database.exec_driver_sql statement db.domain).1 })
          (state-Returns (λ (s : Db). s.ledger ≡ db.ledger)
            (database.exec_driver_sql statement db.domain).0
            (record db { domain = (database.exec_driver_sql statement db.domain).1 }) refl)
          (λ _ s h.
            subst
              (λ l.
                Returns (λ _ (t : Db). t.ledger ≡ l) (execute_all runtime database statements s))
              h (execute_all-ledger statements s))

    -- The ledger after a step: the checksum of the file stands under its name, the other rows and
    -- the columns are as before.
    abbrev Recorded : MigrationFile → MigrationLedger → Db → Type 0
    Recorded path ledger db =
        (later : MigrationLedger) × (db.ledger ≡ some later)
        × (later.columns ≡ ledger.columns)
        × ((name : String)
            → lookup string_key name later.rows ≡ (
                if str_eq path.name name
                then some (migration_checksum runtime path)
                else lookup string_key name ledger.rows))

    abbrev Stepped : MigrationFile → Option Digest → MigrationLedger → List String → Db → Type 0
    Stepped path recorded ledger names db =
        Recorded path ledger db
        × (names ≡ (if is_none recorded then path.name ∷ [] else []))
        × ((recorded ≡ none)
            ⊎ (recorded ≡ some (migration_checksum runtime path))
            ⊎ (recorded ≡ some (legacy_byte_checksum runtime path)))

    abbrev with_checksum : MigrationFile → MigrationLedger → MigrationLedger
    with_checksum path ledger = record ledger {
      rows = insert string_key path.name (migration_checksum runtime path) ledger.rows;
    }

    written :
        (path : MigrationFile) (ledger : MigrationLedger) (db : Db)
        → db.ledger ≡ some ledger
        → Recorded path ledger
            (write_row runtime database path.name (migration_checksum runtime path) db).1
    written path ledger db h = (
      with_checksum path ledger,
      rw h refl,
      refl,
      λ name. lookup-insert string_key name path.name (migration_checksum runtime path) ledger.rows,
    )

    unwritten :
        (path : MigrationFile) (ledger : MigrationLedger) (db : Db)
        → db.ledger ≡ some ledger
        → lookup string_key path.name ledger.rows ≡ some (migration_checksum runtime path)
        → Recorded path ledger db
    unwritten path ledger db h found = (
      ledger,
      h,
      refl,
      λ name. elim (Bool-cases (str_eq path.name name)) [
        | inl same ↦ rw same (
            ap (λ n. lookup string_key n ledger.rows) (sym ((eq_iff path.name name).0 same))
            ∙ found)
        | inr different ↦ rw different refl
      ],
    )

    apply_path-Stepped :
        (path : MigrationFile) (recorded : Option Digest) (ledger : MigrationLedger) (db : Db)
        → db.ledger ≡ some ledger
        → lookup string_key path.name ledger.rows ≡ recorded
        → Returns (Stepped path recorded ledger) (apply_path runtime database path recorded db)
    apply_path-Stepped path none ledger db h found =
        let run = execute_all runtime database (migration_statements runtime path) db in
        after-Returns (λ _ (s : Db). s.ledger ≡ db.ledger) (Stepped path none ledger) run.0
          (λ _ s. (
            ok (path.name ∷ []),
            (write_row runtime database path.name (migration_checksum runtime path) s).1,
          ))
          run.1 (execute_all-ledger (migration_statements runtime path) db)
          (λ _ s kept. (written path ledger s (kept ∙ h), refl, inl refl))
    apply_path-Stepped path (some recorded) ledger db h found =
        elim (Bool-cases (recorded == migration_checksum runtime path)) [
          | inl same ↦
              let is_current : recorded ≡ migration_checksum runtime path =
                (==_iff recorded (migration_checksum runtime path)).0 same in
              rw same (
                unwritten path ledger db h (found ∙ ap some is_current),
                refl,
                inr (inl (ap some is_current)),
              )
          | inr changed ↦
              rw changed (elim (Bool-cases (recorded == legacy_byte_checksum runtime path)) [
                | inl same ↦ rw same (
                  written path ledger db h,
                  refl,
                  inr (
                      inr (ap some ((==_iff recorded (legacy_byte_checksum runtime path)).0 same))),
                )
                | inr refused ↦ rw refused tt
              ])
        ]

    -- What the loop returns and leaves: the names of the files that have no row, in order, and a
    -- ledger in which the checksums of the files stand over the rows that there were.
    abbrev pub Looped :
        Dict String Digest → List MigrationFile → MigrationLedger → List String → Db → Type 0
    Looped applied paths ledger names db =
        ((later : MigrationLedger) × (db.ledger ≡ some later)
          × (later.columns ≡ ledger.columns)
          × ((name : String)
              → lookup string_key name later.rows
                ≡ first_of (lookup string_key name (checksums_of runtime paths))
                    (lookup string_key name ledger.rows)))
        × (names
            ≡ map (λ path. path.name)
                (keep (λ path. is_none (lookup string_key path.name applied)) paths))
        × All
            (λ path.
              (lookup string_key path.name applied ≡ none)
              ⊎ (lookup string_key path.name applied ≡ some (migration_checksum runtime path))
              ⊎ (lookup string_key path.name applied ≡ some (legacy_byte_checksum runtime path)))
            paths

    -- The rows of the other files are as before the step.
    unmoved :
        (path : MigrationFile) (paths : List MigrationFile) (ledger later : MigrationLedger)
        (applied : Dict String Digest)
        → All (λ other. path.name ≢ other.name) paths
        → All
            (λ other.
              lookup string_key other.name ledger.rows ≡ lookup string_key other.name applied)
            paths
        → ((name : String)
            → lookup string_key name later.rows ≡ (
                if str_eq path.name name
                then some (migration_checksum runtime path)
                else lookup string_key name ledger.rows))
        → All
            (λ other.
              lookup string_key other.name later.rows ≡ lookup string_key other.name applied)
            paths
    unmoved path [] ledger later applied ne same rows = tt
    unmoved path (other ∷ paths) ledger later applied (ne, others) (same, rest) rows = (
      rows other.name ∙ ground (arith, eq_iff path.name other.name, same),
      unmoved path paths ledger later applied others rest rows,
    )

    composed :
        (path : MigrationFile) (paths : List MigrationFile) (name : String)
        (before middle final : Option Digest)
        → All (λ other. path.name ≢ other.name) paths
        → middle
          ≡ (if str_eq path.name name then some (migration_checksum runtime path) else before)
        → final ≡ first_of (lookup string_key name (checksums_of runtime paths)) middle
        → final ≡ first_of (lookup string_key name (checksums_of runtime (path ∷ paths))) before
    unfolding checksums_of
    composed path paths name before middle final ne h k =
        let entry =
          lookup-insert string_key name path.name (migration_checksum runtime path)
            (checksums_of runtime paths) in
        elim (Bool-cases (str_eq path.name name)) [
          | inl same ↦
              let is_entry : lookup string_key name (checksums_of runtime (path ∷ paths))
                  ≡ some (migration_checksum runtime path) =
                entry ∙ rw same refl in
              let absent : lookup string_key name (checksums_of runtime paths) ≡ none =
                ap (λ n. lookup string_key n (checksums_of runtime paths))
                  (sym ((eq_iff path.name name).0 same))
                ∙ absent-checksums path.name paths ne in
              let is_middle : middle ≡ some (migration_checksum runtime path) = h ∙ rw same refl in
              k
              ∙ ap (λ o. first_of o middle) absent
              ∙ is_middle
              ∙ sym (ap (λ o. first_of o before) is_entry)
          | inr different ↦
              let is_entry : lookup string_key name (checksums_of runtime (path ∷ paths))
                  ≡ lookup string_key name (checksums_of runtime paths) =
                entry ∙ rw different refl in
              let is_middle : middle ≡ before = h ∙ rw different refl in
              k
              ∙ ap (first_of (lookup string_key name (checksums_of runtime paths))) is_middle
              ∙ sym (ap (λ o. first_of o before) is_entry)
        ]

    named :
        (path : MigrationFile) (paths : List MigrationFile) (applied : Dict String Digest)
        → (if is_none (lookup string_key path.name applied) then path.name ∷ [] else [])
            ++ map (λ p. p.name) (keep (λ p. is_none (lookup string_key p.name applied)) paths)
          ≡ map
              (λ p. p.name)
              (keep (λ p. is_none (lookup string_key p.name applied)) (path ∷ paths))
    unfolding keep
    named path paths applied = elim (Bool-cases (is_none (lookup string_key path.name applied))) [
      | inl absent ↦ rw absent refl
      | inr present ↦ rw present refl
    ]

    pub apply_paths-Looped :
        (applied : Dict String Digest) (paths : List MigrationFile) (ledger : MigrationLedger)
        (db : Db)
        → db.ledger ≡ some ledger
        → DistinctNames paths
        → All
            (λ path. lookup string_key path.name ledger.rows ≡ lookup string_key path.name applied)
            paths
        → Returns (Looped applied paths ledger) (apply_paths runtime database applied paths db)
    unfolding apply_paths checksums_of lookup keep
    apply_paths-Looped applied [] ledger db h ne same = ((ledger, h, refl, λ name. refl), refl, tt)
    apply_paths-Looped applied (path ∷ paths) ledger db h (ne, others) (same, rest) =
        let recorded = lookup string_key path.name applied in
        let run = apply_path runtime database path recorded db in
        after-Returns (Stepped path recorded ledger) (Looped applied (path ∷ paths) ledger) run.0
          (λ names. do later ← apply_paths runtime database applied paths; pure (names ++ later))
          run.1 (apply_path-Stepped path recorded ledger db h same)
          (λ names s ((middle, is_middle, columns, rows), are_named, accepted).
            let tail = apply_paths runtime database applied paths s in
            after-Returns (Looped applied paths middle) (Looped applied (path ∷ paths) ledger)
              tail.0 (λ later. pure (names ++ later)) tail.1
              (apply_paths-Looped applied paths middle s is_middle others
                (unmoved path paths ledger middle applied ne rest rows))
              (λ later t ((final, is_final, same_columns, all_rows), later_named, all_accepted). (
                (
                  final,
                  is_final,
                  same_columns ∙ columns,
                  λ name.
                      composed path paths name (lookup string_key name ledger.rows)
                        (lookup string_key name middle.rows) (lookup string_key name final.rows) ne
                        (rows name) (all_rows name),
                ),
                ap (λ ns. ns ++ later) are_named
                    ∙ ap (λ ns. (if is_none recorded then path.name ∷ [] else []) ++ ns) later_named
                    ∙ named path paths applied,
                (accepted, all_accepted),
              )))
