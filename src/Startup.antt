-- ===== src/Startup.antt =====
-- app/core/db.py: what the server does before it answers, the wait for the database and the
-- migrations. A connection and what a script does to the database are parameters; the clock counts
-- ticks, `hz` of them a second.
pub mod Waiting
pub mod Migrations
mod Tests
use flyrank_capstone_widgetp.Base.{
  ℕ, zero, suc, ◌+◌, ◌*◌, String, Bool, true, false, Option, none, some, List, [], ◌∷◌, ◌++◌, any,
  leb, str_eq, if◌then◌else◌,
}
use flyrank_capstone_widgetp.Http.{Outcome, ok, crash, ◌>>=◌, unique_violation, database_error}

-- Attempts to connect: whether one that begins at an instant succeeds, and the ticks that a failing
-- one takes.
pub record Attempts : Type 0 where
  pub succeeds : ℕ → Bool
  pub takes : ℕ → ℕ

module _ (hz : ℕ) (attempts : Attempts) where
  -- The loop of `build_pool` from an instant on, on fuel; `none` where that runs out.
  abbrev pub try_until : ℕ → ℕ → ℕ → Option (Outcome (Unit {0}))
  try_until deadline zero now = none
  try_until deadline (suc fuel) now =
      let failed = now + attempts.takes now in
      let rest = try_until deadline fuel (failed + hz) in
      if attempts.succeeds now
      then some (ok tt)
      else if leb deadline failed
      then some (crash database_error)
      else rest

  -- `build_pool`
  unfoldable pub build_pool : ℕ → ℕ → ℕ → Option (Outcome (Unit {0}))
  build_pool wait_seconds fuel now = try_until (now + wait_seconds * hz) fuel now

-- The table `schema_migrations`, and the rest of the database.
pub record Migrated {ℓ} (S : Type ℓ) : Type ℓ where
  pub versions : List String
  pub content : S

abbrev pub is_in_versions : String → List String → Bool
is_in_versions name versions = any (str_eq name) versions

-- A file of the folder: its name and its text.
abbrev pub Script : Type 0
Script = String × String

module _ {ℓ} {S : Type ℓ} (execute : String → S → Option S) where
  -- One file in a transaction: its script, and its name into the table, where it is a primary key.
  abbrev pub recorded : String → Option S → Migrated S → Outcome (Migrated S)
  recorded name none db = crash database_error
  recorded name (some content) db =
      if is_in_versions name db.versions
      then crash unique_violation
      else ok (record { versions = db.versions ++ name ∷ []; content = content })

  abbrev pub apply_script : Script → Migrated S → Outcome (Migrated S)
  apply_script script db = recorded script.0 (execute script.1 db.content) db

  abbrev pub then_record :
      String
      → Migrated S
      → Outcome (Migrated S)
      → (Migrated S → Migrated S × Outcome (List String))
      → Migrated S × Outcome (List String)
  then_record name db (ok next) rest =
      let r = rest next in (r.0, r.1 >>= λ names. ok (name ∷ names))
  then_record name db (crash x) rest = (db, crash x)
  then_record name db (Outcome.http e) rest = (db, Outcome.http e)

  -- The loop over the files, with what was applied when it began.
  abbrev pub apply_pending :
      List String → List Script → Migrated S → Migrated S × Outcome (List String)
  apply_pending applied [] db = (db, ok [])
  apply_pending applied (script ∷ scripts) db =
      if is_in_versions script.0 applied
      then apply_pending applied scripts db
      else then_record script.0 db (apply_script script db) (apply_pending applied scripts)

  -- `run_migrations`, of the files in the order of their names
  unfoldable pub run_migrations : List Script → Migrated S → Migrated S × Outcome (List String)
  run_migrations scripts db = apply_pending db.versions scripts db
