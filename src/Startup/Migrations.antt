-- ===== src/Startup/Migrations.antt =====
-- app/core/db.py: what a run of the migrations leaves, and what a second one does.
use flyrank_capstone_widgetp.Base.{
  String, Bool, true, false, ◌||◌, not, ◌≡◌, ◌≢◌, refl, ap, sym, ◌∙◌, Option, none, some, List, [],
  ◌∷◌, ◌++◌, map, select, arith, All, str_eq, eq_refl, Bool-cases, inl, inr,
}
use flyrank_capstone_widgetp.Http.{Outcome, ok, http, crash, Exception, ◌>>=◌}
use flyrank_capstone_widgetp.Startup.{
  Migrated, Script, is_in_versions, recorded, then_record, apply_pending, run_migrations,
}

any_append :
    (name : String) (vs : List String) (new : String)
    → is_in_versions name vs ≡ true
    → is_in_versions name (vs ++ new ∷ []) ≡ true
any_append name [] new h = cc
any_append name (v ∷ vs) new h = elim (Bool-cases (str_eq name v)) [
  | inl e ↦ rw e refl
  | inr e ↦ rw e (any_append name vs new (rw e at h))
]

any_last : (name : String) (vs : List String) → is_in_versions name (vs ++ name ∷ []) ≡ true
any_last name [] = rw (eq_refl name) refl
any_last name (v ∷ vs) = elim (Bool-cases (str_eq name v)) [
  | inl e ↦ rw e refl
  | inr e ↦ rw e (any_last name vs)
]

append_last :
    (vs done : List String) (name : String) → (vs ++ name ∷ []) ++ done ≡ vs ++ (name ∷ done)
append_last [] done name = refl
append_last (v ∷ vs) done name = ap (λ xs. v ∷ xs) (append_last vs done name)

append_nothing : (vs : List String) → vs ≡ vs ++ []
append_nothing [] = refl
append_nothing (v ∷ vs) = ap (λ xs. v ∷ xs) (append_nothing vs)

-- The names of the files that a run has before it.
abbrev pub pending_names : List String → List Script → List String
pending_names applied scripts =
    map (λ s. s.0) (select (λ s. not (is_in_versions s.0 applied)) scripts)

-- How a run ends: with the names that it recorded, or with an exception and names that are left.
abbrev pub Finishes : List String → List String → Outcome (List String) → Type 0
Finishes done left (ok names) = (names ≡ done) × (left ≡ [])
Finishes done left (http e) = ⊥
Finishes done left (crash x) = left ≢ []

Finishes-then :
    (name : String) (done left : List String) (r : Outcome (List String))
    → Finishes done left r
    → Finishes (name ∷ done) left (r >>= λ names. ok (name ∷ names))
Finishes-then name done left (ok names) h = (ap (λ xs. name ∷ xs) h.0, h.1)
Finishes-then name done left (http e) h = absurd h
Finishes-then name done left (crash x) h = h

or_true : (b : Bool) → b || true ≡ true
or_true b = ground arith

is_in_append :
    (name : String) (vs ws : List String)
    → is_in_versions name (vs ++ ws) ≡ (is_in_versions name vs || is_in_versions name ws)
is_in_append name [] ws = refl
is_in_append name (v ∷ vs) ws = elim (Bool-cases (str_eq name v)) [
  | inl e ↦ rw e refl
  | inr e ↦ rw e (is_in_append name vs ws)
]

covered :
    (applied : List String) (scripts : List Script) (vs : List String)
    → ((n : String) → is_in_versions n applied ≡ true → is_in_versions n vs ≡ true)
    → ((n : String)
        → is_in_versions n (pending_names applied scripts) ≡ true
        → is_in_versions n vs ≡ true)
    → All (λ s. is_in_versions s.0 vs ≡ true) scripts
covered applied [] vs old new = tt
covered applied (s ∷ scripts) vs old new = elim (Bool-cases (is_in_versions s.0 applied)) [
  | inl e ↦ (old s.0 e, covered applied scripts vs old (λ n h. new n (rw e h)))
  | inr e ↦ (
    new s.0 (rw (e, eq_refl s.0) refl),
    covered applied scripts vs old (λ n h. new n (rw e (ground (arith, h)))),
  )
]

module _ {ℓ} {S : Type ℓ} (execute : String → S → Option S) where
  -- What a run makes of its files.
  pub record Runs (applied : List String) (scripts : List Script) (db : Migrated S)
      (r : Migrated S × Outcome (List String)) : Type ℓ where
    pub done : List String
    pub left : List String
    pub in_order : pending_names applied scripts ≡ done ++ left
    pub recorded_names : r.0.versions ≡ db.versions ++ done
    pub finishes : Finishes done left r.1

  Runs-then :
      (applied : List String) (script : Script) (scripts : List Script) (db next : Migrated S)
      (r : Migrated S × Outcome (List String))
      → is_in_versions script.0 applied ≡ false
      → next.versions ≡ db.versions ++ script.0 ∷ []
      → Runs applied scripts next r
      → Runs applied (script ∷ scripts) db (r.0, r.1 >>= λ names. ok (script.0 ∷ names))
  Runs-then applied script scripts db next r new grown h = record {
    done = script.0 ∷ h.done;
    left = h.left;
    in_order = rw (new, h.in_order) refl;
    recorded_names =
        h.recorded_names
        ∙ (ap (λ vs. vs ++ h.done) grown ∙ append_last db.versions h.done script.0);
    finishes = Finishes-then script.0 h.done h.left r.1 h.finishes;
  }

  Runs-failed :
      (applied : List String) (script : Script) (scripts : List Script) (db : Migrated S)
      (x : Exception)
      → is_in_versions script.0 applied ≡ false
      → Runs applied (script ∷ scripts) db (db, crash x)
  Runs-failed applied script scripts db x new = record {
    done = [];
    left = pending_names applied (script ∷ scripts);
    in_order = refl;
    recorded_names = append_nothing db.versions;
    finishes = rw new (λ e. cc);
  }

  Runs-recorded :
      (applied : List String) (script : Script) (scripts : List Script) (db : Migrated S)
      (o : Option S)
      → is_in_versions script.0 applied ≡ false
      → ((next : Migrated S)
          → Runs applied scripts next (apply_pending execute applied scripts next))
      → Runs applied (script ∷ scripts) db (
          then_record execute script.0 db
            (recorded execute script.0 o db)
            (apply_pending execute applied scripts))
  Runs-recorded applied script scripts db none new rest =
      Runs-failed applied script scripts db _ new
  Runs-recorded applied script scripts db (some content) new rest =
      elim (Bool-cases (is_in_versions script.0 db.versions)) [
        | inl e ↦ rw e (Runs-failed applied script scripts db _ new)
        | inr e ↦ rw e (Runs-then applied script scripts db _ _ new refl (rest _))
      ]

  apply_pending-Runs :
      (applied : List String) (scripts : List Script) (db : Migrated S)
      → Runs applied scripts db (apply_pending execute applied scripts db)
  apply_pending-Runs applied [] db = record {
    done = [];
    left = [];
    in_order = refl;
    recorded_names = append_nothing db.versions;
    finishes = (refl, refl);
  }
  apply_pending-Runs applied (script ∷ scripts) db =
      elim (Bool-cases (is_in_versions script.0 applied)) [
        | inl e ↦
            let h = apply_pending-Runs applied scripts db in
            rw e (record {
              done = h.done;
              left = h.left;
              in_order = rw e h.in_order;
              recorded_names = h.recorded_names;
              finishes = h.finishes;
            })
        | inr e ↦ rw e (
            Runs-recorded applied script scripts db (execute script.1 db.content) e
              (apply_pending-Runs applied scripts))
      ]

  -- A run of the migrations takes the files that are not recorded yet in their order: those that it
  -- records are the first of them, whose names follow the older ones, and it answers with exactly
  -- these names if no file is left, and ends in an exception if one is.
  pub run_migrations-Runs :
      (scripts : List Script) (db : Migrated S)
      → Runs db.versions scripts db (run_migrations execute scripts db)
  unfolding run_migrations
  run_migrations-Runs scripts db = apply_pending-Runs db.versions scripts db

  nothing_pending :
      (vs : List String) (scripts : List Script) (db : Migrated S)
      → All (λ s. is_in_versions s.0 vs ≡ true) scripts
      → apply_pending execute vs scripts db ≡ (db, ok [])
  nothing_pending vs [] db h = refl
  nothing_pending vs (script ∷ scripts) db h = rw (h.0) (nothing_pending vs scripts db h.1)

  every_recorded :
      (scripts : List Script) (db : Migrated S) (r : Migrated S × Outcome (List String))
      (names : List String)
      → Runs db.versions scripts db r
      → r.1 ≡ ok names
      → All (λ s. is_in_versions s.0 r.0.versions ≡ true) scripts
  every_recorded scripts db r names h e =
      let ended : Finishes h.done h.left (ok names) = rw e at h.finishes in
      let order : pending_names db.versions scripts ≡ h.done =
        h.in_order ∙ (ap (λ xs. h.done ++ xs) ended.1 ∙ sym (append_nothing h.done)) in
      covered db.versions scripts r.0.versions
        (λ n k. rw (h.recorded_names, is_in_append) (rw k refl))
        (λ n k. rw (h.recorded_names, is_in_append) (rw (← order, k) (or_true _)))

  -- A run of the migrations that ended well, and then a second one over the same files: the second
  -- applies nothing, answers with no name and leaves the database as it was.
  pub run_migrations_again :
      (scripts : List Script) (db : Migrated S) (names : List String)
      → (run_migrations execute scripts db).1 ≡ ok names
      → run_migrations execute scripts (run_migrations execute scripts db).0
        ≡ ((run_migrations execute scripts db).0, ok [])
  unfolding run_migrations
  run_migrations_again scripts db names e =
      nothing_pending _ scripts _
        (every_recorded scripts db _ names (run_migrations-Runs scripts db) e)
