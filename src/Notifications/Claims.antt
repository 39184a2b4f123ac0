-- ===== src/Notifications/Claims.antt =====
-- app/repositories/notifications.py: what a claim takes.
use flyrank_capstone_widgetp.Base.{
  ℕ, zero, suc, ◌≤◌, Bool, true, false, ◌≡◌, refl, ap, List, [], ◌∷◌, map, arith, select, take,
  length, length-take, All, leb, Bool-cases, inl, inr,
}
use flyrank_capstone_widgetp.Schema.{Job}
use flyrank_capstone_widgetp.Notifications.{
  is_due, insert_by_due, sort_by_due, claimed, update_where, chosen, is_among, claim_due,
}

module _ {ℓ κ} {A : Type ℓ} (P : A → Type κ) where
  pub All-take : (n : ℕ) (xs : List A) → All P xs → All P (take n xs)
  All-take zero xs h = tt
  All-take (suc n) [] h = tt
  All-take (suc n) (x ∷ xs) h = (h.0, All-take n xs h.1)

  pub All-map {μ} :
      {B : Type μ} (f : B → A) (xs : List B) → All (λ b. P (f b)) xs → All P (map f xs)
  All-map f [] h = tt
  All-map f (x ∷ xs) h = (h.0, All-map f xs h.1)

-- Sorting by the instant keeps what holds of all rows.
module _ {κ} (P : Job → Type κ) where
  All-insert_by_due : (j : Job) (js : List Job) → P j → All P js → All P (insert_by_due j js)
  All-insert_by_due j [] p h = (p, tt)
  All-insert_by_due j (k ∷ ks) p h = elim (Bool-cases (leb j.next_attempt_at k.next_attempt_at)) [
    | inl e ↦ rw e (p, h)
    | inr e ↦ rw e (h.0, All-insert_by_due j ks p h.1)
  ]

  All-sort_by_due : (js : List Job) → All P js → All P (sort_by_due js)
  All-sort_by_due [] h = tt
  All-sort_by_due (j ∷ js) h = All-insert_by_due j (sort_by_due js) h.0 (All-sort_by_due js h.1)

  pub All-chosen :
      (now limit : ℕ) (jobs : List Job)
      → All P (select (is_due now) jobs)
      → All P (chosen now limit jobs)
  All-chosen now limit jobs h = All-take P limit _ (All-sort_by_due _ h)

-- What holds of a row that is due holds of the selection.
pub All-select :
    (P : Job → Type 0) (p : Job → Bool) (jobs : List Job)
    → All (λ j. p j ≡ true → P j) jobs
    → All P (select p jobs)
All-select P p [] h = tt
All-select P p (j ∷ jobs) h = elim (Bool-cases (p j)) [
  | inl e ↦ rw e (h.0 e, All-select P p jobs h.1)
  | inr e ↦ rw e (All-select P p jobs h.1)
]

All-trivial : (P : Job → Type 0) (jobs : List Job) → ((j : Job) → P j) → All P jobs
All-trivial P [] h = tt
All-trivial P (j ∷ jobs) h = (h j, All-trivial P jobs h)

-- A claimed row: it was waiting and its time had come.
pub record WasDue (now : ℕ) (k : Job) : Type 0 where
  pub before : Job
  pub due : is_due now before ≡ true
  pub same : k ≡ claimed before

length-map-claimed : (js : List Job) → length (map claimed js) ≡ length js
length-map-claimed [] = refl
length-map-claimed (j ∷ js) = ap suc (length-map-claimed js)

is_among-map-claimed : (js : List Job) (k : Job) → is_among (map claimed js) k ≡ is_among js k
is_among-map-claimed [] k = refl
is_among-map-claimed (j ∷ js) k = rw (is_among-map-claimed js k)

length-claim_due : (now limit : ℕ) (jobs : List Job) → length (claim_due now limit jobs).1 ≤ limit
unfolding claim_due
length-claim_due now limit jobs = omega (
  arith,
  length-map-claimed (chosen now limit jobs),
  length-take limit (sort_by_due (select (is_due now) jobs)),
)

-- A claim returns at most as many rows as it may, each of which was pending and due, and is now
-- being processed with one attempt more.
pub claim_due-WasDue :
    (now limit : ℕ) (jobs : List Job)
    → (length (claim_due now limit jobs).1 ≤ limit) × All (WasDue now) (claim_due now limit jobs).1
unfolding claim_due
claim_due-WasDue now limit jobs = (
  length-claim_due now limit jobs,
  All-map (WasDue now) claimed (chosen now limit jobs) (
      All-chosen (λ j. WasDue now (claimed j)) now limit jobs
        (All-select _ (is_due now) jobs
          (All-trivial _ jobs (λ j d. record { before = j; due = d; same = refl })))),
)

-- Rows that an earlier claim took are not waiting any more.
not_again :
    (due jobs : List Job) (later : ℕ)
    → All
        (λ j. is_due later j ≡ true → is_among (map claimed due) (claimed j) ≡ false)
        (update_where (is_among due) claimed jobs)
not_again due [] later = tt
not_again due (j ∷ jobs) later = elim (Bool-cases (is_among due j)) [
  | inl e ↦ rw e ((λ h. cc), not_again due jobs later)
  | inr e ↦ rw e ((λ h. rw (is_among-map-claimed due (claimed j)) e), not_again due jobs later)
]

-- No row is claimed twice: a claim made on what another claim left, at whatever instant, returns
-- none of the numbers that the other returned.
pub claim_due-claim_due :
    (now later limit more : ℕ) (jobs : List Job)
    → let first = claim_due now limit jobs in
      All (λ k. is_among first.1 k ≡ false) (claim_due later more first.0).1
unfolding claim_due
claim_due-claim_due now later limit more jobs =
    let due = chosen now limit jobs in
    let after = update_where (is_among due) claimed jobs in
    All-map (λ k. is_among (map claimed due) k ≡ false) claimed (chosen later more after)
      (All-chosen (λ j. is_among (map claimed due) (claimed j) ≡ false) later more after
        (All-select _ (is_due later) after (not_again due jobs later)))
