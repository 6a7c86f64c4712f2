-- ===== src/Tests/Migrations.antt =====
-- The migrations at a concrete directory.
use mathlib.Core.Bool.{false≢true}
use event_alpha.Prelude.{
  ℕ, ◌+◌, ◌-◌, ◌*◌, ◌≡◌, refl, String, ◌&&◌, ◌||◌, List, [], ◌∷◌, none, leb, ◌==◌, eq_iff,
  if◌then◌else◌, keep,
}
use event_alpha.Prelude.Dict.{lookup, insert}
use event_alpha.Prelude.Order.{lex_le, sort}
use event_alpha.Errors.{ok, err, runtime_error}
use event_alpha.Contracts.{codes}
use event_alpha.Migrations.{
  MigrationFile, MigrationRuntime, Database, MigrationDb, migration_paths, migration_statements,
  apply_migrations, within, meets, strip_left,
}
use event_alpha.Migrations.Ledger.{DistinctNames}
use event_alpha.Migrations.Accepted.{Applied, apply_migrations-Applied}
use event_alpha.Migrations.Again.{apply_migrations_again}

weighed : ℕ → List ℕ → ℕ
weighed h [] = h
weighed h (c ∷ cs) = weighed (h * 257 + c) cs

unfoldable plain : MigrationRuntime
unfolding weighed lex_le
plain = record {
  digest = weighed 0;
  encode = λ cs. cs;
  is_space = λ c. c == 32 || c == 10;
  upper = λ c. (if leb b'a' c && leb c b'z' then c - 32 else c) ∷ [];
  name_le = λ a b. lex_le (codes a) (codes b);
}

-- A database that counts its statements.
abbrev counted : Database
counted = record {
  S = ℕ;
  table_names = λ s. if s == 0 then [] else "events" ∷ [];
  exec_driver_sql = λ statement s. (ok tt, s + 1);
}

abbrev file : String → String → MigrationFile
file name text = record { name = name; content = codes text; raw_bytes = codes text }

abbrev directory : List MigrationFile
directory = file "002.sql" "BEGIN; CREATE b; COMMIT;" ∷ file "001.sql" "CREATE a" ∷ []

directory-DistinctNames : DistinctNames directory
directory-DistinctNames = (((λ e. false≢true ((eq_iff "002.sql" "001.sql").1 e)), tt), (tt, tt))

unfoldable fresh : MigrationDb plain counted
fresh = record { domain = 0; ledger = none }

unfoldable migrated : MigrationDb plain counted
unfolding fresh
migrated = (apply_migrations plain counted directory fresh).1

two_statements : migrated.domain ≡ 2
unfolding migrated fresh plain apply_migrations migration_paths migration_statements lex_le sort
    keep lookup insert within meets strip_left
two_statements = refl

apply_migrations-Applied_example :
    Applied plain counted
      (migration_paths plain directory)
      fresh
      ("001.sql" ∷ "002.sql" ∷ [])
      migrated
unfolding migrated fresh plain apply_migrations lex_le sort keep lookup insert within meets
    strip_left
apply_migrations-Applied_example =
    apply_migrations-Applied plain counted directory fresh migrated ("001.sql" ∷ "002.sql" ∷ [])
      directory-DistinctNames refl

apply_migrations_again_example :
    apply_migrations plain counted directory migrated ≡ (ok [], migrated)
unfolding migrated fresh plain apply_migrations lex_le sort keep lookup insert within meets
    strip_left
apply_migrations_again_example =
    apply_migrations_again plain counted directory fresh migrated ("001.sql" ∷ "002.sql" ∷ [])
      directory-DistinctNames refl

-- A schema without a ledger is refused, and stays as it is.
unversioned_refused :
    apply_migrations plain counted directory (record { domain = 1; ledger = none })
    ≡ (err runtime_error, record { domain = 1; ledger = none })
unfolding apply_migrations meets
unversioned_refused = refl
