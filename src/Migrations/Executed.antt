-- ===== src/Migrations/Executed.antt =====
-- What the loop over the migrations executes.
use event_alpha.Prelude.{
  ℕ, ◌≡◌, refl, ap, ◌∙◌, inl, inr, String, List, [], ◌∷◌, ◌++◌, Option, none, some, is_none, ◌==◌,
  keep, if◌then◌else◌, Bool-cases,
}
use event_alpha.Prelude.Dict.{Dict, string_key, lookup}
use event_alpha.Errors.{Result, ok, err}
use event_alpha.Exec.{Exec, after, Returns, after-Returns, pure, ◌>>=◌, ◌>>◌}
use event_alpha.Contracts.Event.{Digest}
use event_alpha.Migrations.{
  MigrationFile, MigrationRuntime, Database, MigrationDb, migration_checksum, legacy_byte_checksum,
  migration_statements, execute_all, write_row, apply_path, apply_paths,
}

-- The statements of files, in order.
unfoldable pub statements_of : MigrationRuntime → List MigrationFile → List (List ℕ)
statements_of runtime [] = []
statements_of runtime (path ∷ paths) =
    migration_statements runtime path ++ statements_of runtime paths

-- The execution of statements, one after another, by the database alone.
unfoldable pub executed : (database : Database) → List (List ℕ) → Exec database.S (Unit {0})
executed database [] = pure tt
executed database (statement ∷ statements) = do
  database.exec_driver_sql statement
  executed database statements

module _ (runtime : MigrationRuntime) (database : Database) where
  abbrev Db : Type 0
  Db = MigrationDb runtime database

  -- The statements lead from one state of the database to another, without an error.
  abbrev pub Ran : List (List ℕ) → database.S → database.S → Type 0
  Ran statements s t = executed database statements s ≡ (ok tt, t)

  Ran-after :
      (a c : List (List ℕ)) (t u : database.S) (r : Result (Unit {0})) (m : database.S)
      → (Ran a m t → Ran c m u)
      → after r (λ _. executed database a) m ≡ (ok tt, t)
      → after r (λ _. executed database c) m ≡ (ok tt, u)
  Ran-after a c t u (err e) m f h = absurd (cc (ap (λ q. q.0) h))
  Ran-after a c t u (ok _) m f h = f h

  Ran-append : (a b : List (List ℕ)) (s t u : database.S) → Ran a s t → Ran b t u → Ran (a ++ b) s u
  unfolding executed
  Ran-append [] b s t u h k = ap (executed database b) (ap (λ q. q.1) h) ∙ k
  Ran-append (statement ∷ a) b s t u h k =
      Ran-after a (a ++ b) t u (database.exec_driver_sql statement s).0
        (database.exec_driver_sql statement s).1
        (λ first. Ran-append a b (database.exec_driver_sql statement s).1 t u first k) h

  after-Returns-Ran :
      (statements : List (List ℕ)) (r : Result (Unit {0})) (db : Db)
      → Returns
          (λ _ (s : Db). Ran statements db.domain s.domain)
          (execute_all runtime database statements db)
      → Returns
          (λ _ (s : Db). after r (λ _. executed database statements) db.domain ≡ (ok tt, s.domain))
          (after r (λ _. execute_all runtime database statements) db)
  after-Returns-Ran statements (err e) db h = tt
  after-Returns-Ran statements (ok _) db h = h

  execute_all-Ran :
      (statements : List (List ℕ)) (db : Db)
      → Returns
          (λ _ (s : Db). Ran statements db.domain s.domain)
          (execute_all runtime database statements db)
  unfolding execute_all executed
  execute_all-Ran [] db = refl
  execute_all-Ran (statement ∷ statements) db =
      let (r, m) = database.exec_driver_sql statement db.domain in
      after-Returns-Ran statements r (record db { domain = m })
        (execute_all-Ran statements (record db { domain = m }))

  -- The files without a row.
  abbrev pub pending_of : Dict String Digest → List MigrationFile → List MigrationFile
  pending_of applied paths = keep (λ path. is_none (lookup string_key path.name applied)) paths

  abbrev step_statements : MigrationFile → Option Digest → List (List ℕ)
  step_statements path recorded = if is_none recorded then migration_statements runtime path else []

  apply_path-Ran :
      (path : MigrationFile) (recorded : Option Digest) (db : Db)
      → Returns
          (λ _ (s : Db). Ran (step_statements path recorded) db.domain s.domain)
          (apply_path runtime database path recorded db)
  unfolding executed
  apply_path-Ran path none db =
      let run = execute_all runtime database (migration_statements runtime path) db in
      after-Returns (λ _ (s : Db). Ran (migration_statements runtime path) db.domain s.domain)
        (λ _ (s : Db). Ran (migration_statements runtime path) db.domain s.domain) run.0
        (λ _ s. (
          ok (path.name ∷ []),
          (write_row runtime database path.name (migration_checksum runtime path) s).1,
        ))
        run.1 (execute_all-Ran (migration_statements runtime path) db) (λ _ s h. h)
  apply_path-Ran path (some recorded) db =
      elim (Bool-cases (recorded == migration_checksum runtime path)) [
        | inl same ↦ rw same refl
        | inr changed ↦
            rw changed (elim (Bool-cases (recorded == legacy_byte_checksum runtime path)) [
              | inl same ↦ rw same refl
              | inr refused ↦ rw refused tt
            ])
      ]

  pending_statements :
      (path : MigrationFile) (paths : List MigrationFile) (applied : Dict String Digest)
      → step_statements path (lookup string_key path.name applied)
          ++ statements_of runtime (pending_of applied paths)
        ≡ statements_of runtime (pending_of applied (path ∷ paths))
  unfolding keep statements_of
  pending_statements path paths applied =
      elim (Bool-cases (is_none (lookup string_key path.name applied))) [
        | inl absent ↦ rw absent refl
        | inr present ↦ rw present refl
      ]

  -- The loop executes the statements of the files without a row, and nothing else.
  pub apply_paths-Ran :
      (applied : Dict String Digest) (paths : List MigrationFile) (db : Db)
      → Returns
          (λ _ (s : Db). Ran (statements_of runtime (pending_of applied paths)) db.domain s.domain)
          (apply_paths runtime database applied paths db)
  unfolding apply_paths executed statements_of keep
  apply_paths-Ran applied [] db = refl
  apply_paths-Ran applied (path ∷ paths) db =
      let recorded = lookup string_key path.name applied in
      let run = apply_path runtime database path recorded db in
      after-Returns (λ _ (s : Db). Ran (step_statements path recorded) db.domain s.domain)
        (λ _ (s : Db).
          Ran (statements_of runtime (pending_of applied (path ∷ paths))) db.domain s.domain)
        run.0
        (λ names. do later ← apply_paths runtime database applied paths; pure (names ++ later))
        run.1 (apply_path-Ran path recorded db)
        (λ names s first.
          let tail = apply_paths runtime database applied paths s in
          after-Returns
            (λ _ (t : Db). Ran (statements_of runtime (pending_of applied paths)) s.domain t.domain)
            (λ _ (t : Db).
              Ran (statements_of runtime (pending_of applied (path ∷ paths))) db.domain t.domain)
            tail.0 (λ later. pure (names ++ later)) tail.1 (apply_paths-Ran applied paths s)
            (λ later t rest. rw (← pending_statements path paths applied) (
              Ran-append (step_statements path recorded)
                (statements_of runtime (pending_of applied paths)) db.domain s.domain t.domain first
                rest)))
