-- ===== src/Notifications/Progress.antt =====
-- app/services/notifications.py: the attempts that a table has left, which every claim makes fewer.
use flyrank_capstone_widgetp.Base.{
  ℕ, suc, ◌+◌, ◌-◌, ◌<◌, ◌≤◌, Bool, true, ◌≡◌, refl, List, [], ◌∷◌, map, arith, All, select, take,
  count, length, Bool-cases, inl, inr, if◌then◌else◌,
}
use flyrank_capstone_widgetp.Schema.{Job, Status, pending, processing, delivered, dead}
use flyrank_capstone_widgetp.Notifications.{
  is_pending, is_due, insert_by_due, sort_by_due, claimed, chosen, is_among, claim_due,
}
use flyrank_capstone_widgetp.Notifications.Claims.{All-chosen, All-select}
use flyrank_capstone_widgetp.Notifications.Stuck.{Holds, Distinct, ids, not_among}
use flyrank_capstone_widgetp.Notifications.Budget.{InBudget, each_row, of_row}
use flyrank_capstone_widgetp.Notifications.Lifecycle.{
  Edge, claims, delivers, retries, buries, Course, here, further, Evolves,
}

-- The attempts that a row has left.
abbrev pub left_of : ℕ → Status → ℕ → ℕ
left_of limit pending attempts = limit - attempts
left_of limit processing attempts = limit - attempts
left_of limit delivered attempts = 0
left_of limit dead attempts = 0

-- The attempts that a table has left.
abbrev pub left : ℕ → List Job → ℕ
left limit [] = 0
left limit (j ∷ jobs) = left_of limit j.status j.attempts + left limit jobs

left-Edge :
    (limit : ℕ) (j k : Job)
    → Edge limit j k
    → left_of limit k.status k.attempts ≤ left_of limit j.status j.attempts
left-Edge limit j k (claims i p) = rw p (omega arith)
left-Edge limit j k (delivers i p) = omega arith
left-Edge limit j k (retries i now delay error p l) = rw p (omega arith)
left-Edge limit j k (buries i error p) = omega arith

left-Course :
    (limit : ℕ) (j k : Job)
    → Course limit j k
    → left_of limit k.status k.attempts ≤ left_of limit j.status j.attempts
left-Course limit j k here = omega arith
left-Course limit j k (further {k = i} c e) =
    omega (arith, left-Course limit j i c, left-Edge limit i k e)

pub left-Evolves :
    (limit : ℕ) (js ks : List Job) → Evolves limit js ks → left limit ks ≤ left limit js
left-Evolves limit [] [] p = omega arith
left-Evolves limit [] (k ∷ ks) p = absurd p
left-Evolves limit (j ∷ js) [] p = absurd p
left-Evolves limit (j ∷ js) (k ∷ ks) p =
    omega (arith, left-Course limit j k p.0, left-Evolves limit js ks p.1)

-- A claim takes one attempt of each row that it takes.
left_claimed :
    (limit : ℕ) (p : Job → Bool) (jobs : List Job)
    → All (λ j. p j ≡ true → (j.status ≡ pending) × (j.attempts < limit)) jobs
    → left limit (map (λ j. if p j then claimed j else j) jobs) + count p jobs ≡ left limit jobs
left_claimed limit p [] h = refl
left_claimed limit p (j ∷ jobs) h = elim (Bool-cases (p j)) [
  | inr e ↦ rw e (omega (arith, left_claimed limit p jobs h.1))
  | inl e ↦
      let (waits, attempt) = h.0 e in
      rw (e, waits) (omega (arith, attempt, left_claimed limit p jobs h.1))
]

count_held :
    (p : Job → Bool) (k : Job) (jobs : List Job) → Holds k jobs → p k ≡ true → 1 ≤ count p jobs
count_held p k [] h e = absurd h
count_held p k (j ∷ jobs) (inl same) e = rw same (rw e (omega arith))
count_held p k (j ∷ jobs) (inr h) e = elim (Bool-cases (p j)) [
  | inl f ↦ rw f (omega arith)
  | inr f ↦ rw f (count_held p k jobs h e)
]

select_held :
    (p : Job → Bool) (k : Job) (jobs : List Job)
    → Holds k jobs
    → p k ≡ true
    → 1 ≤ length (select p jobs)
select_held p k [] h e = absurd h
select_held p k (j ∷ jobs) (inl same) e = rw same (rw e (omega arith))
select_held p k (j ∷ jobs) (inr h) e = elim (Bool-cases (p j)) [
  | inl f ↦ rw f (omega arith)
  | inr f ↦ rw f (select_held p k jobs h e)
]

length-insert_by_due : (j : Job) (js : List Job) → length (insert_by_due j js) ≡ suc (length js)
length-insert_by_due j [] = refl
length-insert_by_due j (k ∷ ks) = ground (arith, length-insert_by_due j ks)

-- Where a row is due, one is chosen.
chosen_some :
    (now width : ℕ) (k : Job) (jobs : List Job)
    → Holds k jobs
    → is_due now k ≡ true
    → (j : Job) × (rest : List Job) × (chosen now (suc width) jobs ≡ j ∷ rest)
chosen_some now width k jobs h due = go (select (is_due now) jobs) refl
  where
    first :
        (js : List Job)
        → 1 ≤ length js
        → (j : Job) × (rest : List Job) × (take (suc width) js ≡ j ∷ rest)
    first [] p = absurd (omega arith)
    first (j ∷ js) p = (j, take width js, refl)

    go :
        (js : List Job)
        → select (is_due now) jobs ≡ js
        → (j : Job) × (rest : List Job) × (chosen now (suc width) jobs ≡ j ∷ rest)
    go [] e =
        let some_due : 1 ≤ length (select (is_due now) jobs) =
          select_held (is_due now) k jobs h due in
        absurd (omega (arith, rw e at some_due))
    go (j ∷ js) e = rw e (
        first (insert_by_due j (sort_by_due js))
          (omega (arith, length-insert_by_due j (sort_by_due js))))

pub is_pending-status : (s : Status) → is_pending s ≡ true → s ≡ pending
is_pending-status pending h = refl
is_pending-status processing h = cc
is_pending-status delivered h = cc
is_pending-status dead h = cc

-- A claim with a row due leaves fewer attempts.
pub left-claim_due :
    (limit now width : ℕ) (k : Job) (jobs : List Job)
    → Distinct (ids jobs)
    → All (InBudget limit) jobs
    → Holds k jobs
    → is_due now k ≡ true
    → left limit (claim_due now (suc width) jobs).0 < left limit jobs
unfolding claim_due
left-claim_due limit now width k jobs d b h due =
    let all = chosen now (suc width) jobs in
    let (j, rest, e) = chosen_some now width k jobs h due in
    let from_table : All (λ i. Holds i jobs) all =
      All-chosen (λ i. Holds i jobs) now (suc width) jobs
        (All-select _ (is_due now) jobs (each_row _ jobs (λ i g _. g))) in
    let there : Holds j jobs = (rw e at from_table).0 in
    let taken : is_among all j ≡ true = rw e (ground arith) in
    let counted = count_held (is_among all) j jobs there taken in
    let claimed_rows = left_claimed limit (is_among all) jobs (
      each_row _ jobs (λ i g among. elim (Bool-cases (is_pending i.status)) [
        | inl p ↦
            let budget = of_row (InBudget limit) jobs i b g in
            (is_pending-status i.status p, rw p at budget)
        | inr n ↦ cc (not_among now (suc width) jobs i d g n)
      ])) in
    omega (arith, counted, claimed_rows)
