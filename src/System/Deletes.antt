-- ===== src/System/Deletes.antt =====
-- app/repositories/widgets.py: a delete, with its cascade, keeps the tables consistent.
use flyrank_capstone_widgetp.Base.{
  ℕ, ◌<◌, String, Bool, true, false, not, ◌≡◌, refl, ◌∙◌, Option, none, some, List, [], ◌∷◌, map,
  arith, any, select, All, ◌==◌, str_eq, Bool-cases, inl, inr,
}
use flyrank_capstone_widgetp.Schema.{Submission, Job}
use flyrank_capstone_widgetp.Database.{Database, conflicts, is_replay}
use flyrank_capstone_widgetp.Database.Consistency.{Keyed, jobs_for, Served, IsValid}
use flyrank_capstone_widgetp.Notifications.Stuck.{Distinct, is_in}
use flyrank_capstone_widgetp.Widgets.{is_owned, is_submission_of, delete_widget}

-- The primary keys of the submissions.
abbrev pub numbers : List Submission → List ℕ
numbers = map (λ s. s.id)

module _ {ℓ} {A : Type ℓ} where
  pub All-kept {κ} : (P : A → Type κ) (p : A → Bool) (xs : List A) → All P xs → All P (select p xs)
  All-kept P p [] h = tt
  All-kept P p (x ∷ xs) h = elim (Bool-cases (p x)) [
    | inl e ↦ rw e (h.0, All-kept P p xs h.1)
    | inr e ↦ rw e (All-kept P p xs h.1)
  ]

  any_kept : (q p : A → Bool) (xs : List A) → any q xs ≡ false → any q (select p xs) ≡ false
  any_kept q p [] h = refl
  any_kept q p (x ∷ xs) h = elim (Bool-cases (p x)) [
    | inl e ↦ rw e (ground (arith, h, any_kept q p xs))
    | inr e ↦ rw e (any_kept q p xs (ground (arith, h)))
  ]

  -- The rows of a selection, of each of which it is known that it was selected.
  All-chosen_if {κ} :
      (P : A → Type κ) (p : A → Bool) (xs : List A)
      → All (λ x. p x ≡ true → P x) xs
      → All P (select p xs)
  All-chosen_if P p [] h = tt
  All-chosen_if P p (x ∷ xs) h = elim (Bool-cases (p x)) [
    | inl e ↦ rw e (h.0 e, All-chosen_if P p xs h.1)
    | inr e ↦ rw e (All-chosen_if P p xs h.1)
  ]

  All-then {κ μ} :
      (P : A → Type κ) (Q : A → Type μ) (xs : List A)
      → All P xs
      → All (λ x. P x → Q x) xs
      → All Q xs
  All-then P Q [] h f = tt
  All-then P Q (x ∷ xs) h f = (f.0 h.0, All-then P Q xs h.1 f.1)

conflicts_kept :
    (widget_id : String) (key : Option String) (p : Submission → Bool) (rows : List Submission)
    → conflicts widget_id key rows ≡ false
    → conflicts widget_id key (select p rows) ≡ false
conflicts_kept widget_id none p rows h = refl
conflicts_kept widget_id (some key) p rows h = any_kept (is_replay widget_id key) p rows h

Keyed-kept : (p : Submission → Bool) (rows : List Submission) → Keyed rows → Keyed (select p rows)
Keyed-kept p [] k = tt
Keyed-kept p (r ∷ rows) k = elim (Bool-cases (p r)) [
  | inl e ↦ rw e (conflicts_kept r.widget_id r.idempotency_key p rows k.0, Keyed-kept p rows k.1)
  | inr e ↦ rw e (Keyed-kept p rows k.1)
]

pub is_in-numbers :
    (n : ℕ) (p : Submission → Bool) (rows : List Submission)
    → is_in n (numbers rows) ≡ false
    → is_in n (numbers (select p rows)) ≡ false
is_in-numbers n p [] h = refl
is_in-numbers n p (r ∷ rows) h = elim (Bool-cases (p r)) [
  | inl e ↦ rw e (ground (arith, h, is_in-numbers n p rows))
  | inr e ↦ rw e (is_in-numbers n p rows (ground (arith, h)))
]

pub Distinct-numbers :
    (p : Submission → Bool) (rows : List Submission)
    → Distinct (numbers rows)
    → Distinct (numbers (select p rows))
Distinct-numbers p [] d = tt
Distinct-numbers p (r ∷ rows) d = elim (Bool-cases (p r)) [
  | inl e ↦ rw e (is_in-numbers r.id p rows d.0, Distinct-numbers p rows d.1)
  | inr e ↦ rw e (Distinct-numbers p rows d.1)
]

-- The jobs of a row that stays are not among those that a cascade takes.
jobs_for_kept :
    (gone : List Submission) (n : ℕ) (jobs : List Job)
    → any (λ s. s.id == n) gone ≡ false
    → jobs_for n (select (λ j. not (is_submission_of gone j)) jobs) ≡ jobs_for n jobs
jobs_for_kept gone n [] h = refl
jobs_for_kept gone n (j ∷ jobs) h = elim (Bool-cases (is_submission_of gone j)) [
  | inr e ↦ rw e (ground (arith, jobs_for_kept gone n jobs h))
  | inl e ↦ elim (Bool-cases (j.submission_id == n)) [
    | inl same ↦
        let taken : any (λ s. s.id == j.submission_id) gone ≡ true = e in
        let own : j.submission_id ≡ n = ground (arith, same) in cc (rw own at taken)
    | inr other ↦ rw (e, other) (jobs_for_kept gone n jobs h)
  ]
]

any-numbers : (n : ℕ) (rows : List Submission) → any (λ s. s.id == n) rows ≡ is_in n (numbers rows)
any-numbers n [] = refl
any-numbers n (r ∷ rows) = ground (arith, any-numbers n rows)

apart :
    (n : ℕ) (rows : List Submission)
    → is_in n (numbers rows) ≡ false
    → All (λ r. (n == r.id) ≡ false) rows
apart n [] h = tt
apart n (r ∷ rows) h = (ground (arith, h), apart n rows (ground (arith, h)))

-- A row that stays has no number of a row that goes.
kept_apart :
    (q : Submission → Bool) (rows : List Submission)
    → Distinct (numbers rows)
    → All (λ r. q r ≡ false → any (λ s. s.id == r.id) (select q rows) ≡ false) rows
kept_apart q [] d = tt
kept_apart q (x ∷ rows) d = (
  first,
  All-then _ _ rows (kept_apart q rows d.1) (All-then _ _ rows (apart x.id rows d.0) (each rows)),
)
  where
    first : q x ≡ false → any (λ s. s.id == x.id) (select q (x ∷ rows)) ≡ false
    first e = rw e (any-numbers x.id (select q rows) ∙ is_in-numbers x.id q rows d.0)

    each :
        (rs : List Submission)
        → All
            (λ r.
              (x.id == r.id) ≡ false
              → (q r ≡ false → any (λ s. s.id == r.id) (select q rows) ≡ false)
              → q r ≡ false
              → any (λ s. s.id == r.id) (select q (x ∷ rows)) ≡ false)
            rs
    each [] = tt
    each (r ∷ rs) = (
      (λ a b c. elim (Bool-cases (q x)) [
        | inl e ↦ rw e (ground (arith, a, b c))
        | inr e ↦ rw e (b c)
      ]),
      each rs,
    )

-- A delete keeps the tables consistent.
pub delete_widget-IsValid :
    (widget_id : String) (tenant_id : ℕ) (db : Database)
    → Distinct (numbers db.submissions)
    → IsValid db
    → IsValid (delete_widget widget_id tenant_id db).0
unfolding delete_widget
delete_widget-IsValid widget_id tenant_id db d v =
    elim (Bool-cases (any (is_owned widget_id tenant_id) db.widgets)) [
      | inr none_there ↦ rw (none_there, delete_widget) v
      | inl there ↦
          let q = λ (s : Submission). str_eq s.widget_id widget_id in
          let gone = select q db.submissions in
          let jobs = select (λ j. not (is_submission_of gone j)) db.jobs in
          rw (there, delete_widget)
            (record {
              keyed = Keyed-kept (λ s. not (q s)) db.submissions v.keyed;
              fresh =
                  All-kept (λ r. r.id < db.next_submission) (λ s. not (q s)) db.submissions v.fresh;
              served =
                  All-chosen_if (Served jobs) (λ s. not (q s)) db.submissions
                    (All-then _ _ db.submissions v.served (
                      All-then _ _ db.submissions (kept_apart q db.submissions d)
                        (stays db.submissions)));
              owned =
                  All-kept (λ j. j.submission_id < db.next_submission)
                    (λ j. not (is_submission_of gone j)) db.jobs v.owned;
            })
    ]
  where
    stays :
        (rs : List Submission)
        → All
            (λ r.
              (str_eq r.widget_id widget_id ≡ false
                → any
                    (λ s. s.id == r.id)
                    (select (λ s. str_eq s.widget_id widget_id) db.submissions)
                  ≡ false)
              → Served db.jobs r
              → not (str_eq r.widget_id widget_id) ≡ true
              → Served
                  (select
                    (λ j. not (
                      is_submission_of
                        (select (λ s. str_eq s.widget_id widget_id) db.submissions)
                        j))
                    db.jobs)
                  r)
            rs
    stays [] = tt
    stays (r ∷ rs) = (
      (λ a s e.
          jobs_for_kept (select (λ s. str_eq s.widget_id widget_id) db.submissions) r.id db.jobs
            (a (ground (arith, e)))
          ∙ s),
      stays rs,
    )
