-- ===== src/Dashboard/Pages.antt =====
-- app/services/dashboard.py: the pages of the list of submissions.
use flyrank_capstone_widgetp.Base.{
  ℕ, zero, suc, ◌+◌, ◌-◌, ◌≤◌, min, String, Bool, true, not, ◌||◌, ◌≡◌, refl, ap, Option, List, [],
  ◌∷◌, ◌++◌, map, count, arith, select, take, drop, length, length-take, length-drop, length-select,
  All, ltb, Bool-cases, inl, inr,
}
use flyrank_capstone_widgetp.Json.{ℤ, pos, negsuc}
use flyrank_capstone_widgetp.Schema.{Submission}
use flyrank_capstone_widgetp.Database.{Database}
use flyrank_capstone_widgetp.Dashboard.{
  passes, insert_row, by_newest, list_rows, count_rows, public_row, page_limit, page_offset,
  list_submissions,
}

length-map : (rows : List Submission) → length (map public_row rows) ≡ length rows
length-map [] = refl
length-map (r ∷ rows) = ap suc (length-map rows)

length-insert_row :
    (r : Submission) (rows : List Submission) → length (insert_row r rows) ≡ suc (length rows)
length-insert_row r [] = refl
length-insert_row r (s ∷ rows) = ground (arith, length-insert_row r rows)

length-by_newest : (rows : List Submission) → length (by_newest rows) ≡ length rows
length-by_newest [] = refl
length-by_newest (r ∷ rows) =
    omega (arith, length-insert_row r (by_newest rows), length-by_newest rows)

length-list_rows :
    (tenant limit offset : ℕ) (widget : Option String) (spam : Bool) (db : Database)
    → length (list_rows tenant widget limit offset spam db)
      ≡ min limit (count_rows tenant widget spam db - offset)
unfolding list_rows count_rows
length-list_rows tenant limit offset widget spam db =
    let rows = select (passes tenant widget spam) db.submissions in
    rw
      (
        length-take limit (drop offset (by_newest rows)),
        length-drop offset (by_newest rows),
        length-by_newest rows,
        length-select (passes tenant widget spam) db.submissions,
      )
      refl

page_limit_bounds : (limit : ℤ) → (1 ≤ page_limit limit) × (page_limit limit ≤ 100)
page_limit_bounds (pos n) = (omega arith, omega arith)
page_limit_bounds (negsuc n) = (omega arith, omega arith)

-- A page is between 1 and 100 rows wide, whatever is asked for. It holds as many items as the rows
-- that passed the filter when they were read leave after its offset, up to its width; the total that
-- it names is that of the later statement, so the two agree where no row that passes the filter came
-- or went in between.
pub list_submissions_counts :
    (tenant : ℕ) (widget : Option String) (limit offset : ℤ) (spam : Bool) (db later : Database)
    → let page = list_submissions tenant widget limit offset spam db later in
      (1 ≤ page.limit)
      × (page.limit ≤ 100)
      × (length page.items
          ≡ min page.limit (count (passes tenant widget spam) db.submissions - page.offset))
      × (page.total ≡ count (passes tenant widget spam) later.submissions)
unfolding list_submissions count_rows
list_submissions_counts tenant widget limit offset spam db later =
    let rows = list_rows tenant widget (page_limit limit) (page_offset offset) spam db in
    (
      (page_limit_bounds limit).0,
      (page_limit_bounds limit).1,
      rw (length-map rows)
          (length-list_rows tenant (page_limit limit) (page_offset offset) widget spam db),
      refl,
    )

add_zero : (b : ℕ) → 0 + b ≡ b
add_zero b = omega arith

add_suc : (a b : ℕ) → suc a + b ≡ suc (a + b)
add_suc a b = omega arith

take-drop :
    (a b : ℕ) (rows : List Submission) → take a rows ++ take b (drop a rows) ≡ take (a + b) rows
take-drop zero b rows = rw (add_zero b) refl
take-drop (suc a) zero [] = rw (add_suc a 0) refl
take-drop (suc a) (suc b) [] = rw (add_suc a (suc b)) refl
take-drop (suc a) b (r ∷ rows) = rw (add_suc a b) (ap (◌∷◌ r) (take-drop a b rows))

drop-drop : (a b : ℕ) (rows : List Submission) → drop a (drop b rows) ≡ drop (b + a) rows
drop-drop a zero rows = rw (add_zero a) refl
drop-drop zero (suc b) [] = rw (add_suc b 0) refl
drop-drop (suc a) (suc b) [] = rw (add_suc b (suc a)) refl
drop-drop a (suc b) (r ∷ rows) = rw (add_suc b a) (drop-drop a b rows)

-- Pages that follow one another show every row once: the page at an offset and the page after it,
-- of whatever widths, are together the page at the offset of both widths.
pub list_rows_tile :
    (tenant offset a b : ℕ) (widget : Option String) (spam : Bool) (db : Database)
    → list_rows tenant widget a offset spam db ++ list_rows tenant widget b (offset + a) spam db
      ≡ list_rows tenant widget (a + b) offset spam db
unfolding list_rows
list_rows_tile tenant offset a b widget spam db =
    let rows = by_newest (select (passes tenant widget spam) db.submissions) in
    rw (← drop-drop a offset rows) (take-drop a b (drop offset rows))

module _ {κ} (P : Submission → Type κ) where
  All-insert_row :
      (r : Submission) (rows : List Submission) → P r → All P rows → All P (insert_row r rows)
  All-insert_row r [] p h = (p, tt)
  All-insert_row r (s ∷ rows) p h = elim (Bool-cases (ltb r.created_at s.created_at)) [
    | inl e ↦ rw e (h.0, All-insert_row r rows p h.1)
    | inr e ↦ rw e (p, h)
  ]

  pub All-by_newest : (rows : List Submission) → All P rows → All P (by_newest rows)
  All-by_newest [] h = tt
  All-by_newest (r ∷ rows) h = All-insert_row r (by_newest rows) h.0 (All-by_newest rows h.1)

  pub All-take_rows : (n : ℕ) (rows : List Submission) → All P rows → All P (take n rows)
  All-take_rows zero rows h = tt
  All-take_rows (suc n) [] h = tt
  All-take_rows (suc n) (r ∷ rows) h = (h.0, All-take_rows n rows h.1)

  pub All-drop_rows : (n : ℕ) (rows : List Submission) → All P rows → All P (drop n rows)
  All-drop_rows zero rows h = h
  All-drop_rows (suc n) [] h = tt
  All-drop_rows (suc n) (r ∷ rows) h = All-drop_rows n rows h.1

-- What a tenant may see in a list that leaves spam out, or not.
pub record IsVisible (tenant : ℕ) (spam : Bool) (row : Submission) : Type 0 where
  pub own : row.tenant_id ≡ tenant
  pub lead : (spam || not row.is_spam) ≡ true

IsVisible-select :
    (tenant : ℕ) (widget : Option String) (spam : Bool) (rows : List Submission)
    → All (IsVisible tenant spam) (select (passes tenant widget spam) rows)
IsVisible-select tenant widget spam [] = tt
IsVisible-select tenant widget spam (r ∷ rows) = elim (Bool-cases (passes tenant widget spam r)) [
  | inl e ↦
      rw e (
        record { own = ground arith; lead = ground arith },
        IsVisible-select tenant widget spam rows,
      )
  | inr e ↦ rw e (IsVisible-select tenant widget spam rows)
]

-- A list shows a tenant its own submissions only, and no spam unless spam is asked for.
pub list_rows-IsVisible :
    (tenant limit offset : ℕ) (widget : Option String) (spam : Bool) (db : Database)
    → All (IsVisible tenant spam) (list_rows tenant widget limit offset spam db)
unfolding list_rows
list_rows-IsVisible tenant limit offset widget spam db = All-take_rows _ limit _ (
    All-drop_rows _ offset _
      (All-by_newest _ _ (IsVisible-select tenant widget spam db.submissions)))
