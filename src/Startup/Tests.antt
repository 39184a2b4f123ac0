-- ===== src/Startup/Tests.antt =====
-- app/core/db.py: the theorems at a start that meets their hypotheses.
use flyrank_capstone_widgetp.Base.{
  ◌*◌, ◌+◌, String, leb, ◌≡◌, refl, Option, some, [], ◌∷◌, List, arith,
}
use flyrank_capstone_widgetp.Http.{ok}
use flyrank_capstone_widgetp.Startup.{Attempts, Script, Migrated, build_pool, run_migrations}
use flyrank_capstone_widgetp.Startup.Waiting.{Ended, build_pool-Ended, build_pool_connects}
use flyrank_capstone_widgetp.Startup.Migrations.{Runs, run_migrations-Runs, run_migrations_again}

-- A database that is up from instant 25 on, and tries that take three ticks.
abbrev late_database : Attempts
late_database = record { succeeds = λ t. leb 25 t; takes = λ _. 3 }

build_pool-Ended_example :
    Ended 10 late_database (7 + 30 * 10) (build_pool 10 late_database 30 31 7)
build_pool-Ended_example = build_pool-Ended 10 late_database 30 7

build_pool_connects_example : build_pool 10 late_database 30 31 7 ≡ some (ok tt)
build_pool_connects_example =
    build_pool_connects 10 late_database 30 7 25 3 (λ t h. ground arith) (λ t. omega arith)
      (omega arith)

abbrev two_scripts : List Script
two_scripts = ("001_init.sql", "CREATE") ∷ ("002_more.sql", "ALTER") ∷ []

-- A database that keeps the scripts it was given.
abbrev keeps_texts : String → List String → Option (List String)
keeps_texts text texts = some (text ∷ texts)

abbrev first_only : Migrated (List String)
first_only = record { versions = "001_init.sql" ∷ []; content = "CREATE" ∷ [] }

run_migrations-Runs_example :
    Runs keeps_texts first_only.versions two_scripts first_only
      (run_migrations keeps_texts two_scripts first_only)
run_migrations-Runs_example = run_migrations-Runs keeps_texts two_scripts first_only

run_migrations_again_example :
    run_migrations keeps_texts two_scripts (run_migrations keeps_texts two_scripts first_only).0
    ≡ ((run_migrations keeps_texts two_scripts first_only).0, ok [])
unfolding run_migrations
run_migrations_again_example =
    run_migrations_again keeps_texts two_scripts first_only ("002_more.sql" ∷ []) refl
