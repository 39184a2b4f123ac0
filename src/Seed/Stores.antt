-- ===== src/Seed/Stores.antt =====
-- scripts/seed.py: what the loop over a tenant's widgets stores, and what it finds.
use flyrank_capstone_widgetp.Base.{
  ℕ, String, Bool, true, ◌≡◌, refl, ap, ◌∙◌, Option, none, some, List, [], ◌∷◌, ◌++◌, any, find,
  arith, str_eq, eq_refl, Bool-cases, inl, inr,
}
use flyrank_capstone_widgetp.Http.{Outcome, ok, http, crash, >>=-eq-ok}
use flyrank_capstone_widgetp.Schema.{Widget}
use flyrank_capstone_widgetp.Database.{Database}
use flyrank_capstone_widgetp.Widgets.{is_owned, get_for_tenant, insert_widget}
use flyrank_capstone_widgetp.Seed.{
  DemoWidget, existing_or_new, seed_widget, then_seed, seed_widgets,
}

module _ {ℓ} {A : Type ℓ} where
  pub find_kept :
      (p : A → Bool) (xs ys : List A) (x : A) → find p xs ≡ some x → find p (xs ++ ys) ≡ some x
  find_kept p [] ys x h = cc
  find_kept p (y ∷ xs) ys x h = elim (Bool-cases (p y)) [
    | inl e ↦ rw e (rw e at h)
    | inr e ↦ rw e (find_kept p xs ys x (rw e at h))
  ]

  pub find_added :
      (p : A → Bool) (xs : List A) (x : A)
      → find p xs ≡ none
      → p x ≡ true
      → find p (xs ++ x ∷ []) ≡ some x
  find_added p [] x n h = rw h refl
  find_added p (y ∷ xs) x n h = elim (Bool-cases (p y)) [
    | inl e ↦ cc (rw e at n)
    | inr e ↦ rw e (find_added p xs x (rw e at n) h)
  ]

  pub any_found :
      (p q : A → Bool) (xs : List A) (x : A) → find p xs ≡ some x → q x ≡ true → any q xs ≡ true
  any_found p q [] x h k = cc
  any_found p q (y ∷ xs) x h k = elim (Bool-cases (p y)) [
    | inl e ↦ let same : y ≡ x = ground (arith, rw e at h) in rw (same, k) refl
    | inr e ↦ elim (Bool-cases (q y)) [
      | inl f ↦ rw f refl
      | inr f ↦ rw f (any_found p q xs x (rw e at h) k)
    ]
  ]

-- What a part that ends well passes to the next one.
pub then_seed_ok {ℓ} :
    {S T : Type ℓ} (p : S × Outcome T) (rest : S → S × Outcome (List T)) (all : List T)
    → (then_seed p rest).1 ≡ ok all
    → (t : T) × (ts : List T) × (p.1 ≡ ok t)
      × ((rest p.0).1 ≡ ok ts)
      × (all ≡ t ∷ ts)
      × ((then_seed p rest).0 ≡ (rest p.0).0)
then_seed_ok (s, ok t) rest all h =
    let parts = >>=-eq-ok (rest s).1 (λ ts. ok (t ∷ ts)) h in
    (t, parts.0, refl, parts.1, ground (arith, parts.2), refl)
then_seed_ok (s, http e) rest all h = cc
then_seed_ok (s, crash x) rest all h = cc

pub then_seed_done {ℓ} :
    {S T : Type ℓ} (p : S × Outcome T) (rest : S → S × Outcome (List T)) (t : T) (ts : List T)
    → p.1 ≡ ok t
    → (rest p.0).1 ≡ ok ts
    → ((then_seed p rest).1 ≡ ok (t ∷ ts)) × ((then_seed p rest).0 ≡ (rest p.0).0)
then_seed_done (s, o) rest t ts h k = rw h (rw k refl, refl)

-- A widget that its tenant has stays what it is.
unfoldable pub KeepsWidgets : Database → Database → Type 0
KeepsWidgets d e =
    (id : String) (tenant : ℕ) (w : Widget)
    → get_for_tenant id tenant d ≡ some w
    → get_for_tenant id tenant e ≡ some w

insert_widget-KeepsWidgets :
    (now tenant : ℕ) (spec : DemoWidget) (db : Database)
    → KeepsWidgets db (insert_widget now spec.0 tenant spec.1 db).0
unfolding insert_widget get_for_tenant KeepsWidgets
insert_widget-KeepsWidgets now tenant spec db id owner w h =
    elim (Bool-cases (any (λ v. str_eq v.id spec.0) db.widgets)) [
      | inl e ↦ rw (e, insert_widget) h
      | inr e ↦ rw (e, insert_widget) (find_kept (is_owned id owner) db.widgets _ w h)
    ]

existing_or_new-KeepsWidgets :
    (now tenant : ℕ) (spec : DemoWidget) (db : Database) (o : Option Widget)
    → KeepsWidgets db (existing_or_new now tenant spec db o).0
unfolding KeepsWidgets
existing_or_new-KeepsWidgets now tenant spec db none = insert_widget-KeepsWidgets now tenant spec db
existing_or_new-KeepsWidgets now tenant spec db (some v) = λ id owner w h. h

-- A widget is there after its turn, and it is the one that the turn gives.
there-existing_or_new :
    (now tenant : ℕ) (spec : DemoWidget) (db : Database) (w : Widget) (o : Option Widget)
    → get_for_tenant spec.0 tenant db ≡ o
    → (existing_or_new now tenant spec db o).1 ≡ ok w
    → get_for_tenant spec.0 tenant (existing_or_new now tenant spec db o).0 ≡ some w
unfolding get_for_tenant insert_widget
there-existing_or_new now tenant spec db w (some v) e h = e ∙ ap some (ground (arith, h))
there-existing_or_new now tenant spec db w none e h =
    elim (Bool-cases (any (λ v. str_eq v.id spec.0) db.widgets)) [
      | inl f ↦ cc (rw (f, insert_widget) at h)
      | inr f ↦
          let made = rw (f, insert_widget) at h in
          rw (f, insert_widget)
            (find_added (is_owned spec.0 tenant) db.widgets _ e (rw (eq_refl spec.0) (ground arith))
              ∙ ap some (ground (arith, made)))
    ]

-- Every widget of a list is there, and these are they.
abbrev pub Found : ℕ → List DemoWidget → List Widget → Database → Type 0
Found tenant [] [] db = Unit {0}
Found tenant (spec ∷ specs) (w ∷ ws) db =
    (get_for_tenant spec.0 tenant db ≡ some w) × Found tenant specs ws db
Found tenant _ _ db = ⊥

pub Found-KeepsWidgets :
    (tenant : ℕ) (specs : List DemoWidget) (ws : List Widget) (d e : Database)
    → KeepsWidgets d e
    → Found tenant specs ws d
    → Found tenant specs ws e
unfolding KeepsWidgets
Found-KeepsWidgets tenant [] [] d e k h = tt
Found-KeepsWidgets tenant [] (w ∷ ws) d e k h = absurd h
Found-KeepsWidgets tenant (spec ∷ specs) [] d e k h = absurd h
Found-KeepsWidgets tenant (spec ∷ specs) (w ∷ ws) d e k h =
    (k spec.0 tenant w h.0, Found-KeepsWidgets tenant specs ws d e k h.1)

pub then_seed_keeps {ℓ κ} :
    {S T : Type ℓ} (P : S → Type κ) (p : S × Outcome T) (rest : S → S × Outcome (List T))
    → P p.0
    → (P p.0 → P (rest p.0).0)
    → P (then_seed p rest).0
then_seed_keeps P (s, ok t) rest h k = k h
then_seed_keeps P (s, http e) rest h k = h
then_seed_keeps P (s, crash x) rest h k = h

pub seed_widgets-KeepsWidgets :
    (now tenant : ℕ) (specs : List DemoWidget) (db : Database)
    → KeepsWidgets db (seed_widgets now tenant specs db).0
unfolding seed_widgets KeepsWidgets
seed_widgets-KeepsWidgets now tenant [] db = λ id owner w h. h
seed_widgets-KeepsWidgets now tenant (spec ∷ specs) db =
    then_seed_keeps (KeepsWidgets db) (seed_widget now tenant spec db)
      (seed_widgets now tenant specs)
      (existing_or_new-KeepsWidgets now tenant spec db (get_for_tenant spec.0 tenant db))
      (λ k id owner w h. seed_widgets-KeepsWidgets now tenant specs _ id owner w (k id owner w h))

pub seed_widgets-Found :
    (now tenant : ℕ) (specs : List DemoWidget) (db : Database) (ws : List Widget)
    → (seed_widgets now tenant specs db).1 ≡ ok ws
    → Found tenant specs ws (seed_widgets now tenant specs db).0
unfolding seed_widgets KeepsWidgets
seed_widgets-Found now tenant [] db [] h = tt
seed_widgets-Found now tenant [] db (w ∷ ws) h = cc
seed_widgets-Found now tenant (spec ∷ specs) db ws h =
    let turn = seed_widget now tenant spec db in
    let parts = then_seed_ok turn (seed_widgets now tenant specs) ws h in
    let there : get_for_tenant spec.0 tenant turn.0 ≡ some parts.0 =
      there-existing_or_new now tenant spec db parts.0 (get_for_tenant spec.0 tenant db) refl
        parts.2 in
    rw (parts.4) (
      rw (parts.5) (
        seed_widgets-KeepsWidgets now tenant specs turn.0 spec.0 tenant parts.0 there,
        seed_widgets-Found now tenant specs turn.0 parts.1 parts.3,
      ))

-- Where every widget is there, the loop over them gives just these and stores nothing.
pub seed_widgets_again :
    (now tenant : ℕ) (specs : List DemoWidget) (ws : List Widget) (db : Database)
    → Found tenant specs ws db
    → seed_widgets now tenant specs db ≡ (db, ok ws)
unfolding seed_widgets
seed_widgets_again now tenant [] [] db h = refl
seed_widgets_again now tenant [] (w ∷ ws) db h = absurd h
seed_widgets_again now tenant (spec ∷ specs) [] db h = absurd h
seed_widgets_again now tenant (spec ∷ specs) (w ∷ ws) db h =
    rw (h.0, seed_widgets_again now tenant specs ws db h.1) refl
