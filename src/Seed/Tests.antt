-- ===== src/Seed/Tests.antt =====
-- scripts/seed.py: two runs over empty tables.
use flyrank_capstone_widgetp.Base.{true, ℕ, zero, suc, String, ◌≡◌, refl, [], ◌∷◌, List, map}
use Prim.Native.String.{◌++◌ as str_append}
use flyrank_capstone_widgetp.Config.{defaults}
use flyrank_capstone_widgetp.Http.{ok}
use flyrank_capstone_widgetp.Schema.{Widget}
use flyrank_capstone_widgetp.Accounts.{create_tenant, find_by_name, add_api_key}
use flyrank_capstone_widgetp.Widgets.{new_widget, get_for_tenant, insert_widget, check_fields}
use flyrank_capstone_widgetp.Seed.{
  Stored, demo_signup, demo_contact, demo_globex, seed_widgets, seed_tenant, seed_all, seed,
}
use flyrank_capstone_widgetp.Seed.Again.{seed_again}

abbrev nothing_stored : Stored
nothing_stored = record {
  accounts = record { tenants = []; keys = []; next_tenant = 1; next_key = 1 };
  db = record {
    widgets = [];
    submissions = [];
    jobs = [];
    next_submission = 1;
    next_job = 1;
    takes = λ _. true;
    accepts = λ _. true;
  };
}

-- A token for each key, all of them different.
abbrev letters : ℕ → String
letters zero = "a"
letters (suc zero) = "b"
letters (suc (suc i)) = "c"

abbrev demo_rows : List (List Widget)
demo_rows =
    (new_widget 0 "wgt_demo_signup" 1 demo_signup.1
      ∷ new_widget 0 "wgt_demo_contact" 1 demo_contact.1
      ∷ [])
    ∷ (new_widget 0 "wgt_demo_globex" 2 demo_globex.1 ∷ [])
    ∷ []

seeds : (seed (λ k. k) 0 letters nothing_stored).1 ≡ ok demo_rows
unfolding seed seed_all seed_tenant seed_widgets find_by_name create_tenant add_api_key
    get_for_tenant insert_widget
seeds = refl

demo_widgets_pass :
    map (λ w. check_fields defaults w.1.fields) (demo_signup ∷ demo_contact ∷ demo_globex ∷ [])
    ≡ ok tt ∷ ok tt ∷ ok tt ∷ []
unfolding check_fields
demo_widgets_pass = refl

seed_again_example :
    let first = (seed (λ k. k) 0 letters nothing_stored).0 in
    let again = seed (λ k. k) 9 (λ i. str_append "z" (letters i)) first in
    (again.1 ≡ ok demo_rows)
    × (again.0.db ≡ first.db)
    × (again.0.accounts.tenants ≡ first.accounts.tenants)
seed_again_example =
    seed_again (λ k. k) 0 9 letters (λ i. str_append "z" (letters i)) nothing_stored demo_rows seeds
