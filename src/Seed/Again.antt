-- ===== src/Seed/Again.antt =====
-- scripts/seed.py: a second run of the script.
use flyrank_capstone_widgetp.Base.{ℕ, suc, String, ◌≡◌, refl, List, [], ◌∷◌}
use flyrank_capstone_widgetp.Http.{ok}
use flyrank_capstone_widgetp.Schema.{Widget}
use flyrank_capstone_widgetp.Accounts.{Digest, find_by_name}
use flyrank_capstone_widgetp.Seed.{Stored, DemoTenant, demo_tenants, seed_tenant, seed_all, seed}
use flyrank_capstone_widgetp.Seed.Stores.{
  then_seed_ok, then_seed_done, then_seed_keeps, KeepsWidgets,
}
use flyrank_capstone_widgetp.Seed.Turns.{
  Keeps, Seeded, Seeded-Keeps, seed_tenant-Keeps, seed_tenant-There, seed_tenant_again,
}

Keeps-same : (s t : Stored) → t.db ≡ s.db → t.accounts.tenants ≡ s.accounts.tenants → Keeps s t
unfolding find_by_name KeepsWidgets
Keeps-same s t d a = record {
  tenants_kept = λ name owner h. rw a h;
  widgets_kept = λ id owner w h. rw d h;
}

Keeps-trans : (s t u : Stored) → Keeps s t → Keeps t u → Keeps s u
unfolding KeepsWidgets
Keeps-trans s t u h k = record {
  tenants_kept = λ name owner g. k.tenants_kept name owner (h.tenants_kept name owner g);
  widgets_kept = λ id owner w g. k.widgets_kept id owner w (h.widgets_kept id owner w g);
}

module _ (hash_key : Digest) (now : ℕ) (tokens : ℕ → String) where
  seed_all-Keeps :
      (i : ℕ) (specs : List DemoTenant) (s : Stored)
      → Keeps s (seed_all hash_key now tokens i specs s).0
  unfolding seed_all
  seed_all-Keeps i [] s = Keeps-same s s refl refl
  seed_all-Keeps i (spec ∷ specs) s =
      then_seed_keeps (Keeps s) (seed_tenant hash_key now (tokens i) spec s)
        (seed_all hash_key now tokens (suc i) specs)
        (seed_tenant-Keeps hash_key now (tokens i) spec s)
        (λ k. Keeps-trans s _ _ k (seed_all-Keeps (suc i) specs _))

  seed_all-Seeded :
      (i : ℕ) (specs : List DemoTenant) (s : Stored) (wss : List (List Widget))
      → (seed_all hash_key now tokens i specs s).1 ≡ ok wss
      → Seeded specs wss (seed_all hash_key now tokens i specs s).0
  unfolding seed_all
  seed_all-Seeded i [] s [] h = tt
  seed_all-Seeded i [] s (ws ∷ wss) h = cc
  seed_all-Seeded i (spec ∷ specs) s wss h =
      let turn = seed_tenant hash_key now (tokens i) spec s in
      let rest = seed_all hash_key now tokens (suc i) specs in
      let parts = then_seed_ok turn rest wss h in
      rw (parts.4, parts.5)
        (
          (Seeded-Keeps (spec ∷ []) (parts.0 ∷ []) turn.0 (rest turn.0).0
              (seed_all-Keeps (suc i) specs turn.0)
              (seed_tenant-There hash_key now (tokens i) spec s parts.0 parts.2, tt)).0,
          seed_all-Seeded (suc i) specs turn.0 parts.1 parts.3,
        )

  seed_all_again :
      (i : ℕ) (specs : List DemoTenant) (s : Stored) (wss : List (List Widget))
      → Seeded specs wss s
      → ((seed_all hash_key now tokens i specs s).1 ≡ ok wss)
        × ((seed_all hash_key now tokens i specs s).0.db ≡ s.db)
        × ((seed_all hash_key now tokens i specs s).0.accounts.tenants ≡ s.accounts.tenants)
  unfolding seed_all
  seed_all_again i [] s [] h = (refl, refl, refl)
  seed_all_again i [] s (ws ∷ wss) h = absurd h
  seed_all_again i (spec ∷ specs) s [] h = absurd h
  seed_all_again i (spec ∷ specs) s (ws ∷ wss) h =
      let turn = seed_tenant hash_key now (tokens i) spec s in
      let first = seed_tenant_again hash_key now (tokens i) spec s ws h.0 in
      let kept = Keeps-same s turn.0 first.1 first.2 in
      let later =
        seed_all_again (suc i) specs turn.0 wss (Seeded-Keeps specs wss s turn.0 kept h.1) in
      let done =
        then_seed_done turn (seed_all hash_key now tokens (suc i) specs) ws wss first.0 later.0 in
      (done.0, rw (done.1, later.1) first.1, rw (done.1, later.2) first.2)

-- The script is safe to run twice: after a run that ended well, a second one, with other keys and at
-- another time, ends well too, with the same widgets; it adds no tenant and touches no row of the
-- widgets, the submissions and the jobs.
pub seed_again :
    (hash_key : Digest) (now later : ℕ) (tokens new_tokens : ℕ → String) (s : Stored)
    (wss : List (List Widget))
    → (seed hash_key now tokens s).1 ≡ ok wss
    → let first = (seed hash_key now tokens s).0 in
      let again = seed hash_key later new_tokens first in
      (again.1 ≡ ok wss)
      × (again.0.db ≡ first.db)
      × (again.0.accounts.tenants ≡ first.accounts.tenants)
unfolding seed
seed_again hash_key now later tokens new_tokens s wss h =
    seed_all_again hash_key later new_tokens 0 demo_tenants _ wss
      (seed_all-Seeded hash_key now tokens 0 demo_tenants s wss h)
