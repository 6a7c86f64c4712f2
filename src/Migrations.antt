-- ===== src/Migrations.antt =====
-- scripts/apply_migrations.py: the checksummed migrations of the database and their ledger.
pub mod Ledger
pub mod Executed
pub mod Files
pub mod Accepted
pub mod Again
use mathlib.Core.List.{reverse}
use event_alpha.Prelude.{
  ℕ, ◌+◌, ◌≡◌, String, Bool, true, false, not, ◌&&◌, ◌||◌, List, [], ◌∷◌, ◌++◌, map, Option, none,
  some, is_none, ◌==◌, str_eq, keep, if◌then◌else◌,
}
use event_alpha.Prelude.Dict.{Dict, string_key, ℕ_key, lookup, insert}
use event_alpha.Prelude.Order.{sort}
use event_alpha.Errors.{Exc, Result, ok, err, runtime_error}
use event_alpha.Exec.{Exec, after, ◌>>=◌, ◌>>◌, pure, raise}
use event_alpha.Contracts.{codes}
use event_alpha.Contracts.Event.{Digest}

-- A file of the directory: its name, its text as read_text gives it, by code points, and its bytes.
pub record MigrationFile : Type 0 where
  pub name : String
  pub content : List ℕ
  pub raw_bytes : List ℕ

-- What Python gives: SHA-256, UTF-8, whether str.strip() takes a character away, str.upper(), and
-- the order of names.
pub record MigrationRuntime : Type 0 where
  pub digest : List ℕ → Digest
  pub encode : List ℕ → List ℕ
  pub is_space : ℕ → Bool
  pub upper : ℕ → List ℕ
  pub name_le : String → String → Bool

-- The rest of the database: the names of its tables, and the execution of a statement, which may
-- raise. The statements of the migrations leave the ledger alone.
pub record Database : Type 1 where
  pub S : Type 0
  pub table_names : S → List String
  pub exec_driver_sql : List ℕ → Exec S (Unit {0})

-- The table schema_migrations: the names of its columns, and the checksum of each version.
pub record MigrationLedger : Type 0 where
  pub columns : List String
  pub rows : Dict String Digest

abbrev begins_line : List ℕ → Bool
begins_line [] = false
begins_line (c ∷ cs) = c == 10

-- text.replace("\r\n", "\n"): each \r before a \n is left out.
unfoldable pub unix_lines : List ℕ → List ℕ
unix_lines [] = []
unix_lines (c ∷ cs) =
    let rest = unix_lines cs in if c == 13 && begins_line cs then rest else c ∷ rest

-- text.split(";"), after the characters of a part that has begun
unfoldable pub split_statements : List ℕ → List ℕ → List (List ℕ)
split_statements part [] = part ∷ []
split_statements part (c ∷ cs) =
    let next = split_statements [] cs in
    let longer = split_statements (part ++ c ∷ []) cs in if c == 59 then part ∷ next else longer

-- text in names
unfoldable pub name_in : String → List String → Bool
name_in name [] = false
name_in name (n ∷ names) = str_eq n name || name_in name names

unfoldable pub same_codes : List ℕ → List ℕ → Bool
same_codes [] [] = true
same_codes (c ∷ s) (d ∷ t) = c == d && same_codes s t
same_codes _ _ = false

abbrev pub domain_tables : List String
domain_tables =
    "sources" ∷ "raw_items" ∷ "events" ∷ "event_mentions" ∷ "providers" ∷ "instruments"
    ∷ "market_bar_observations" ∷ "market_quote_observations" ∷ "provider_state" ∷ []

-- {"version", "checksum", "applied_at"}
abbrev pub ledger_columns : List String
ledger_columns = "version" ∷ "checksum" ∷ "applied_at" ∷ []

-- names & others is not empty
unfoldable pub meets : List String → List String → Bool
unfolding name_in
meets [] others = false
meets (n ∷ names) others = name_in n others || meets names others

-- names - others is empty
unfoldable pub within : List String → List String → Bool
unfolding name_in
within [] others = true
within (n ∷ names) others = name_in n others && within names others

-- set(applied) - set(checksums) is not empty
unfoldable pub has_unavailable : Dict String Digest → Dict String Digest → Bool
has_unavailable [] checksums = false
has_unavailable ((version, _) ∷ applied) checksums =
    is_none (lookup string_key version checksums) || has_unavailable applied checksums

module _ (runtime : MigrationRuntime) where
  abbrev pub migration_checksum : MigrationFile → Digest
  migration_checksum path = runtime.digest (runtime.encode (unix_lines path.content))

  abbrev pub legacy_byte_checksum : MigrationFile → Digest
  legacy_byte_checksum path = runtime.digest path.raw_bytes

  -- text.lstrip(), and text.strip()
  unfoldable pub strip_left : List ℕ → List ℕ
  strip_left [] = []
  strip_left (c ∷ cs) = if runtime.is_space c then strip_left cs else c ∷ cs

  unfoldable pub strip : List ℕ → List ℕ
  strip cs = reverse (strip_left (reverse (strip_left cs)))

  unfoldable pub upper_text : List ℕ → List ℕ
  upper_text [] = []
  upper_text (c ∷ cs) = runtime.upper c ++ upper_text cs

  -- A part that is kept: neither empty nor BEGIN or COMMIT.
  unfoldable pub is_statement : List ℕ → Bool
  unfolding same_codes upper_text
  is_statement [] = false
  is_statement (c ∷ cs) = not (
      same_codes (upper_text (c ∷ cs)) (codes "BEGIN")
      || same_codes (upper_text (c ∷ cs)) (codes "COMMIT"))

  -- `_migration_statements`
  unfoldable pub migration_statements : MigrationFile → List (List ℕ)
  unfolding is_statement split_statements strip
  migration_statements path = keep is_statement (map strip (split_statements [] path.content))

  -- sorted(directory.glob("*.sql"))
  unfoldable pub migration_paths : List MigrationFile → List MigrationFile
  migration_paths = sort (λ a b. runtime.name_le a.name b.name)

  unfoldable pub checksums_of : List MigrationFile → Dict String Digest
  checksums_of [] = []
  checksums_of (path ∷ paths) =
      insert string_key path.name (migration_checksum path) (checksums_of paths)

  module _ (database : Database) where
    -- The database in a transaction.
    pub record MigrationDb : Type 0 where
      pub domain : database.S
      pub ledger : Option MigrationLedger

    abbrev pub rows_of : MigrationDb → Dict String Digest
    rows_of db = elim db.ledger [ none ↦ [] | some ledger ↦ ledger.rows ]

    abbrev with_row : String → Digest → Option MigrationLedger → Option MigrationLedger
    with_row version checksum none = none
    with_row version checksum (some ledger) =
        some (record ledger { rows = insert string_key version checksum ledger.rows })

    -- The INSERT of a new version, and the UPDATE of one that is there.
    abbrev pub write_row : String → Digest → Exec MigrationDb (Unit {0})
    write_row version checksum db =
        (ok tt, record db { ledger = with_row version checksum db.ledger })

    abbrev execute : List ℕ → Exec MigrationDb (Unit {0})
    execute statement db =
        let (r, domain) = database.exec_driver_sql statement db.domain in
        (r, record db { domain = domain })

    unfoldable pub execute_all : List (List ℕ) → Exec MigrationDb (Unit {0})
    execute_all [] = pure tt
    execute_all (statement ∷ statements) = do execute statement; execute_all statements

    -- CREATE TABLE schema_migrations, or the check of its columns.
    abbrev pub ledger_ready : Option MigrationLedger → Exec MigrationDb (Unit {0})
    ledger_ready none db =
        if meets (database.table_names db.domain) domain_tables
        then (err runtime_error, db)
        else (ok tt, record db { ledger = some (record { columns = ledger_columns; rows = [] }) })
    ledger_ready (some ledger) db =
        if within ledger_columns ledger.columns then (ok tt, db) else (err runtime_error, db)

    -- What is done for a file, with the checksum that is recorded for it at the beginning: the
    -- names of the migrations that it applies. The checksum of the directory is that of the file,
    -- whose name is its only one.
    abbrev pub apply_path : MigrationFile → Option Digest → Exec MigrationDb (List String)
    apply_path path none = do
      execute_all (migration_statements path)
      write_row path.name (migration_checksum path)
      pure (path.name ∷ [])
    apply_path path (some recorded) =
        if recorded == migration_checksum path
        then pure []
        else if recorded == legacy_byte_checksum path
        then (do write_row path.name (migration_checksum path); pure [])
        else raise runtime_error

    -- The loop over the paths.
    unfoldable pub apply_paths :
        Dict String Digest → List MigrationFile → Exec MigrationDb (List String)
    unfolding execute_all migration_statements
    apply_paths applied [] = pure []
    apply_paths applied (path ∷ paths) = do
      names ← apply_path path (lookup string_key path.name applied)
      later ← apply_paths applied paths
      pure (names ++ later)

    abbrev pub available : List MigrationFile → Exec MigrationDb (List String)
    available paths db =
        if has_unavailable (rows_of db) (checksums_of paths)
        then (err runtime_error, db)
        else apply_paths (rows_of db) paths db

    abbrev pub ensure_ledger : Exec MigrationDb (Unit {0})
    ensure_ledger db = ledger_ready db.ledger db

    -- The end of the transaction.
    abbrev pub finished :
        MigrationDb → Result (List String) × MigrationDb → Result (List String) × MigrationDb
    finished before (err error, db) = (err error, before)
    finished before (ok names, db) = (ok names, db)

    -- `apply_migrations`, over the files of the directory
    unfoldable pub apply_migrations : List MigrationFile → Exec MigrationDb (List String)
    unfolding migration_paths apply_paths has_unavailable checksums_of meets within
    apply_migrations directory db =
        let run : Exec MigrationDb (List String) = do
          ensure_ledger
          available (migration_paths directory)
        in finished db (run db)
