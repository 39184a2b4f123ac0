-- ===== src/Notifications/Batches.antt =====
-- app/repositories/notifications.py: what claim_due returns is what it marked.
use flyrank_capstone_widgetp.Base.{
  ℕ, zero, suc, Bool, true, false, ◌≡◌, refl, ap, ◌∙◌, List, [], ◌∷◌, map, arith, All, take, select,
  leb, Bool-cases, inl, inr,
}
use flyrank_capstone_widgetp.Schema.{Job, processing}
use flyrank_capstone_widgetp.Notifications.{
  is_due, insert_by_due, sort_by_due, claimed, update_where, chosen, is_among, claim_due,
}
use flyrank_capstone_widgetp.Notifications.Claims.{All-chosen, All-select, All-map}
use flyrank_capstone_widgetp.Notifications.Stuck.{Holds, Distinct, ids, is_in, Holds-id}
use flyrank_capstone_widgetp.Notifications.Budget.{each_row, of_row}

is_in-insert_by_due :
    (n : ℕ) (j : Job) (js : List Job) → is_in n (ids (insert_by_due j js)) ≡ is_in n (ids (j ∷ js))
is_in-insert_by_due n j [] = refl
is_in-insert_by_due n j (k ∷ ks) = elim (Bool-cases (leb j.next_attempt_at k.next_attempt_at)) [
  | inl e ↦ rw e refl
  | inr e ↦ rw e (ground (arith, is_in-insert_by_due n j ks))
]

Distinct-insert_by_due :
    (j : Job) (js : List Job) → Distinct (ids (j ∷ js)) → Distinct (ids (insert_by_due j js))
Distinct-insert_by_due j [] d = d
Distinct-insert_by_due j (k ∷ ks) d = elim (Bool-cases (leb j.next_attempt_at k.next_attempt_at)) [
  | inl e ↦ rw e d
  | inr e ↦ rw e (
    is_in-insert_by_due k.id j ks ∙ ground (arith, d.0, d.1.0),
    Distinct-insert_by_due j ks (ground (arith, d.0), d.1.1),
  )
]

is_in-sort_by_due : (n : ℕ) (js : List Job) → is_in n (ids (sort_by_due js)) ≡ is_in n (ids js)
is_in-sort_by_due n [] = refl
is_in-sort_by_due n (j ∷ js) =
    is_in-insert_by_due n j (sort_by_due js) ∙ ground (arith, is_in-sort_by_due n js)

Distinct-sort_by_due : (js : List Job) → Distinct (ids js) → Distinct (ids (sort_by_due js))
Distinct-sort_by_due [] d = tt
Distinct-sort_by_due (j ∷ js) d =
    Distinct-insert_by_due j (sort_by_due js)
      (is_in-sort_by_due j.id js ∙ d.0, Distinct-sort_by_due js d.1)

is_in-select :
    (n : ℕ) (p : Job → Bool) (js : List Job)
    → is_in n (ids js) ≡ false
    → is_in n (ids (select p js)) ≡ false
is_in-select n p [] h = refl
is_in-select n p (j ∷ js) h = elim (Bool-cases (p j)) [
  | inl e ↦ rw e (ground (arith, h, is_in-select n p js))
  | inr e ↦ rw e (is_in-select n p js (ground (arith, h)))
]

pub Distinct-select :
    (p : Job → Bool) (js : List Job) → Distinct (ids js) → Distinct (ids (select p js))
Distinct-select p [] d = tt
Distinct-select p (j ∷ js) d = elim (Bool-cases (p j)) [
  | inl e ↦ rw e (is_in-select j.id p js d.0, Distinct-select p js d.1)
  | inr e ↦ rw e (Distinct-select p js d.1)
]

is_in-take :
    (n k : ℕ) (js : List Job) → is_in n (ids js) ≡ false → is_in n (ids (take k js)) ≡ false
is_in-take n zero js h = refl
is_in-take n (suc k) [] h = refl
is_in-take n (suc k) (j ∷ js) h = ground (arith, h, is_in-take n k js)

pub Distinct-take : (k : ℕ) (js : List Job) → Distinct (ids js) → Distinct (ids (take k js))
Distinct-take zero js d = tt
Distinct-take (suc k) [] d = tt
Distinct-take (suc k) (j ∷ js) d = (is_in-take j.id k js d.0, Distinct-take k js d.1)

pub ids-claimed : (js : List Job) → ids (map claimed js) ≡ ids js
ids-claimed [] = refl
ids-claimed (j ∷ js) = ap (λ ns. j.id ∷ ns) (ids-claimed js)

-- No row is returned twice.
pub Distinct-claim_due :
    (now limit : ℕ) (jobs : List Job)
    → Distinct (ids jobs)
    → Distinct (ids (claim_due now limit jobs).1)
unfolding claim_due
Distinct-claim_due now limit jobs d =
    rw (ids-claimed (chosen now limit jobs))
      (Distinct-take limit _ (Distinct-sort_by_due _ (Distinct-select (is_due now) jobs d)))

pub among_id : (k : Job) (due : List Job) → is_among due k ≡ is_in k.id (ids due)
among_id k [] = refl
among_id k (j ∷ due) = ground (arith, among_id k due)

marked :
    (j : Job) (p : Job → Bool) (f : Job → Job) (jobs : List Job)
    → p j ≡ true
    → Holds j jobs
    → Holds (f j) (update_where p f jobs)
marked j p f [] e h = absurd h
marked j p f (k ∷ jobs) e (inl same) = inl (rw same (rw e refl))
marked j p f (k ∷ jobs) e (inr h) = inr (marked j p f jobs e h)

-- Every row that is returned stands in the table, as it is returned.
pub Holds-claim_due :
    (now limit : ℕ) (jobs : List Job)
    → All
        (λ j. Holds j (claim_due now limit jobs).0 × (j.status ≡ processing))
        (claim_due now limit jobs).1
unfolding claim_due
Holds-claim_due now limit jobs =
    let due = chosen now limit jobs in
    let from_table : All (λ j. Holds j jobs) due =
      All-chosen (λ j. Holds j jobs) now limit jobs
        (All-select _ (is_due now) jobs (each_row _ jobs (λ j h _. h))) in
    All-map _ claimed due (
      each_row _ due (λ j h. (
        marked j (is_among due) claimed jobs (among_id j due ∙ Holds-id j due h)
            (of_row (λ k. Holds k jobs) due j from_table h),
        refl,
      )))
