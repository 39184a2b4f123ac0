-- ===== src/Startup/Waiting.antt =====
-- app/core/db.py: the wait for the database ends, and well if the database comes up in time.
use flyrank_capstone_widgetp.Base.{
  ℕ, zero, suc, ◌+◌, ◌*◌, ◌≤◌, ◌<◌, true, false, ◌≡◌, refl, Option, some, arith, leb, Bool-cases,
  inl, inr,
}
use flyrank_capstone_widgetp.Http.{Outcome, ok, crash, database_error}
use flyrank_capstone_widgetp.Startup.{Attempts, try_until, build_pool}

leb-le : (m n : ℕ) → leb m n ≡ true → m ≤ n
leb-le m n h = ground arith

module _ (hz : ℕ) (attempts : Attempts) where
  -- The two ends of the wait: with a connection, of an attempt that succeeded, or with the exception of
  -- an attempt that failed at the deadline or later.
  pub data Ended (deadline : ℕ) : Option (Outcome (Unit {0})) → Type 0 where
    connected : (t : ℕ) → attempts.succeeds t ≡ true → Ended deadline (some (ok tt))
    gave_up :
        (t : ℕ)
        → attempts.succeeds t ≡ false
        → deadline ≤ t + attempts.takes t
        → Ended deadline (some (crash database_error))

  Ended-try_until :
      (deadline fuel now : ℕ)
      → deadline ≤ now + fuel * hz
      → Ended deadline (try_until hz attempts deadline (suc fuel) now)
  Ended-try_until deadline zero now enough = elim (Bool-cases (attempts.succeeds now)) [
    | inl e ↦ rw e (connected now e)
    | inr e ↦
        let over : leb deadline (now + attempts.takes now) ≡ true = ground arith in
        rw (e, over) (gave_up now e (leb-le _ _ over))
  ]
  Ended-try_until deadline (suc fuel) now enough = elim (Bool-cases (attempts.succeeds now)) [
    | inl e ↦ rw e (connected now e)
    | inr e ↦ elim (Bool-cases (leb deadline (now + attempts.takes now))) [
      | inl d ↦ rw (e, d) (gave_up now e (leb-le _ _ d))
      | inr d ↦
          rw (e, d)
            (Ended-try_until deadline fuel (now + attempts.takes now + hz) (omega (arith, enough)))
    ]
  ]

  -- The wait for the database ends: for as many tries as there are seconds to wait, and one more,
  -- enough of them, it comes to a connection or to the exception of a try that failed at the deadline
  -- or later, however long the tries take.
  pub build_pool-Ended :
      (wait_seconds now : ℕ)
      → Ended (now + wait_seconds * hz) (build_pool hz attempts wait_seconds (suc wait_seconds) now)
  unfolding build_pool
  build_pool-Ended wait_seconds now =
      Ended-try_until (now + wait_seconds * hz) wait_seconds now (omega arith)

  before_ready :
      (ready now : ℕ)
      → ((t : ℕ) → ready ≤ t → attempts.succeeds t ≡ true)
      → attempts.succeeds now ≡ false
      → now < ready
  before_ready ready now up e = elim (Bool-cases (leb ready now)) [
    | inl h ↦ let late : attempts.succeeds now ≡ true = up now (leb-le _ _ h) in cc
    | inr h ↦ ground arith
  ]

  connects :
      (ready longest deadline fuel now : ℕ)
      → ((t : ℕ) → ready ≤ t → attempts.succeeds t ≡ true)
      → ((t : ℕ) → attempts.takes t ≤ longest)
      → ready + longest ≤ deadline
      → deadline ≤ now + fuel * hz
      → try_until hz attempts deadline (suc fuel) now ≡ some (ok tt)
  connects ready longest deadline zero now up short early enough =
      elim (Bool-cases (attempts.succeeds now)) [
        | inl e ↦ rw e refl
        | inr e ↦ let early_try : now < ready = before_ready ready now up e in absurd (omega arith)
      ]
  connects ready longest deadline (suc fuel) now up short early enough =
      elim (Bool-cases (attempts.succeeds now)) [
        | inl e ↦ rw e refl
        | inr e ↦
            let early_try : now < ready = before_ready ready now up e in
            let quick : attempts.takes now ≤ longest = short now in
            let in_time : leb deadline (now + attempts.takes now) ≡ false = ground arith in
            rw (e, in_time)
              (connects ready longest deadline fuel (now + attempts.takes now + hz) up short early
                (omega (arith, enough)))
      ]

  -- If the database answers every try from some instant on, no try takes longer than some time, and
  -- that time after that instant is not past the deadline, the wait ends with a connection.
  pub build_pool_connects :
      (wait_seconds now ready longest : ℕ)
      → ((t : ℕ) → ready ≤ t → attempts.succeeds t ≡ true)
      → ((t : ℕ) → attempts.takes t ≤ longest)
      → ready + longest ≤ now + wait_seconds * hz
      → build_pool hz attempts wait_seconds (suc wait_seconds) now ≡ some (ok tt)
  unfolding build_pool
  build_pool_connects wait_seconds now ready longest up short early =
      connects ready longest (now + wait_seconds * hz) wait_seconds now up short early (omega arith)
