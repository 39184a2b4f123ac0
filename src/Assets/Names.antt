-- ===== src/Assets/Names.antt =====
-- app/api/public.py: no name that a visitor chooses leads out of the folders.
use flyrank_capstone_widgetp.Base.{
  ℕ, String, Bool, true, false, ◌≡◌, refl, some, List, [], ◌∷◌, All, arith, ◌==◌, str_eq, lookup,
  Bool-cases, Option-cases, inl, inr, any,
}
use flyrank_capstone_widgetp.Text.{codes}
use flyrank_capstone_widgetp.Config.{Config}
use flyrank_capstone_widgetp.Http.{ok}
use flyrank_capstone_widgetp.Assets.{
  Asset, is_digits_end, is_version, widget_bundle, immutable_asset,
}

-- Neither a slash nor a dot.
abbrev pub IsPlain : ℕ → Type 0
IsPlain c = ((c == b'/') ≡ false) × ((c == b'.') ≡ false)

IsPlain-end : (cs : List ℕ) → is_digits_end cs ≡ true → All IsPlain cs
IsPlain-end [] h = tt
IsPlain-end (c ∷ []) h = ((ground arith, ground arith), tt)
IsPlain-end (c ∷ d ∷ cs) h = ((ground arith, ground arith), IsPlain-end (d ∷ cs) (ground arith))

IsPlain-version : (cs : List ℕ) → is_version cs ≡ true → All IsPlain cs
IsPlain-version [] h = cc
IsPlain-version (c ∷ []) h = cc
IsPlain-version (v ∷ c ∷ cs) h =
    ((ground arith, ground arith), ((ground arith, ground arith), IsPlain-end cs (ground arith)))

module _ (cfg : Config) (is_file : String → Bool) where
  -- A bundle is served only for a version that has neither a slash nor a dot in it, so that the path
  -- stays in its folder, whatever files there are.
  pub widget_bundle-IsPlain :
      (version : String) (served : Asset)
      → widget_bundle cfg is_file version ≡ ok served
      → All IsPlain (codes version)
  unfolding widget_bundle
  widget_bundle-IsPlain version served h = elim (Bool-cases (is_version (codes version))) [
    | inl e ↦ IsPlain-version (codes version) e
    | inr e ↦ cc (rw e at h)
  ]

  listed_name :
      (name : String) (allowed : List (String × String)) (v : String)
      → lookup name allowed ≡ some v
      → any (λ e. str_eq e.0 name) allowed ≡ true
  unfolding lookup
  listed_name name [] v h = cc
  listed_name name (e ∷ allowed) v h = elim (Bool-cases (str_eq e.0 name)) [
    | inl k ↦ rw k refl
    | inr k ↦ rw k (listed_name name allowed v (rw k at h))
  ]

  -- A file of an allowlist is served only under a name on the list, and only if the file is there.
  pub immutable_asset_listed :
      (folder filename missing : String) (allowed : List (String × String)) (served : Asset)
      → immutable_asset cfg is_file folder filename allowed missing ≡ ok served
      → (any (λ e. str_eq e.0 filename) allowed ≡ true) × (is_file served.path ≡ true)
  unfolding immutable_asset
  immutable_asset_listed folder filename missing allowed served h =
      elim (Option-cases (lookup filename allowed)) [
        | inl n ↦ cc (rw n at h)
        | inr (v, e) ↦ (listed_name filename allowed v e, ground (arith, rw e at h))
      ]
