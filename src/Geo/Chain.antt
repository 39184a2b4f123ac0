-- ===== src/Geo/Chain.antt =====
-- app/services/geo.py: the chain against a description of it, and who is asked.
use flyrank_capstone_widgetp.Base.{
  ℕ, suc, String, Bool, true, false, not, ◌&&◌, ◌||◌, ◌≡◌, refl, Option, none, some, List, [], ◌∷◌,
  arith, any, ◌==◌, All, All-append, Bool-cases, Option-cases, inl, inr, str_eq, if◌then◌else◌,
}
use flyrank_capstone_widgetp.Json.{truthy}
use flyrank_capstone_widgetp.Schema.{Location}
use flyrank_capstone_widgetp.Geo.{
  Address, Client, Provider, GeoService, Event, asked, no_answer, Tried, try_chain, settle, enrich,
  empty, is_public_ip, lookup_ip,
}

-- The providers of the chain that may be asked: not marked down by position, and free to see the address.
abbrev pub usable : List ℕ → Bool → ℕ → List Provider → List Provider
usable down public position [] = []
usable down public position (q ∷ qs) =
    let rest = usable down public (suc position) qs in
    if any (λ d. d == position) down || (q.needs_public_ip && not public) then rest else q ∷ rest

-- What an event may be: whoever is asked may see the address.
abbrev pub Allowed : Bool → Event → Type 0
Allowed public (asked q) = (q.needs_public_ip && not public) ≡ false
Allowed public _ = Unit {0}

settle-Allowed :
    (public : Bool) (t : Tried)
    → All (Allowed public) t.events
    → All (Allowed public) (settle public t).1
settle-Allowed public t h = elim (Option-cases t.found) [
  | inr (place, e) ↦ rw (e, settle) h
  | inl e ↦ elim (Bool-cases (not t.attempted && not public)) [
    | inl skipped ↦ rw (e, skipped, settle) h
    | inr tried ↦
        rw (e, tried, settle) (All-append (Allowed public) t.events (no_answer ∷ []) h (tt, tt))
  ]
]

abbrev pub is_empty : List Provider → Bool
is_empty [] = true
is_empty (q ∷ qs) = false

module _ (address : String → Option Address) (client : Client) where
  -- The first answer among these that names a country or a city, as its provider gave it.
  abbrev pub first_place : String → List Provider → Option Location
  first_place ip [] = none
  first_place ip (q ∷ qs) =
      let rest = first_place ip qs in
      elim (q.look ip client) [
        | none ↦ rest
        | some a ↦
            if not (truthy a.country) && not (truthy a.city)
            then rest
            else some (record {
              country = a.country;
              country_code = a.country_code;
              city = a.city;
              geo_provider = some q.name;
              geo_status = "ok";
            })
      ]

  -- The place of a visitor whose lookups are made for this address: no address, the first answer,
  -- nobody to ask about a private address, or no answer.
  abbrev pub place_of : GeoService → String → Location
  place_of geo target =
      let public = is_public_ip address client target in
      let asked_ones = usable geo.down public 0 geo.chain in
      if str_eq target "" then empty "skipped_no_ip" else elim (first_place target asked_ones) [
        | some place ↦ place
        | none ↦
            if is_empty asked_ones && not public
            then empty "skipped_private_ip"
            else empty "unavailable"
      ]

  -- Where a visitor is, by the description: looked up by the configured address in place of the
  -- visitor's own, if one is configured.
  abbrev pub described : GeoService → String → Location
  described geo ip =
      if not (str_eq geo.forced_ip "") then place_of geo geo.forced_ip else place_of geo ip

  module _ (down : List ℕ) (ip : String) (public : Bool) where
    found-try_chain :
        (position : ℕ) (attempted : Bool) (qs : List Provider)
        → (try_chain address client down ip public position attempted qs).found
          ≡ first_place ip (usable down public position qs)
    unfolding try_chain
    found-try_chain position attempted [] = refl
    found-try_chain position attempted (q ∷ qs) =
        ground (
          arith,
          found-try_chain (suc position) attempted qs,
          found-try_chain (suc position) true qs,
        )

    attempted-try_chain :
        (position : ℕ) (attempted : Bool) (qs : List Provider)
        → (try_chain address client down ip public position attempted qs).attempted
          ≡ (attempted || not (is_empty (usable down public position qs)))
    unfolding try_chain
    attempted-try_chain position attempted [] = ground arith
    attempted-try_chain position attempted (q ∷ qs) = ground (
      arith,
      attempted-try_chain (suc position) attempted qs,
      attempted-try_chain (suc position) true qs,
    )

    events-Allowed :
        (position : ℕ) (attempted : Bool) (qs : List Provider)
        → All
            (Allowed public)
            (try_chain address client down ip public position attempted qs).events
    unfolding try_chain
    events-Allowed position attempted [] = tt
    events-Allowed position attempted (q ∷ qs) =
        ground
          (arith, events-Allowed (suc position) attempted qs, events-Allowed (suc position) true qs)

  enrich-place_of :
      (geo : GeoService) (ip target : String)
      → lookup_ip geo ip ≡ target
      → (enrich address client geo ip).0 ≡ place_of geo target
  unfolding enrich
  enrich-place_of geo ip target e =
      let public = is_public_ip address client target in
      rw (e, enrich)
        (ground (
          arith,
          found-try_chain geo.down target public 0 false geo.chain,
          attempted-try_chain geo.down target public 0 false geo.chain,
        ))

  -- The place that `enrich` records is the described one: the lookups are made for the configured
  -- address if there is one, and for the visitor's otherwise; the place is the first answer that
  -- names a country or a city, of the providers that may be asked, in the order of the chain, with
  -- that provider's name; without such an answer, every field is null and the status tells that
  -- there was no address, that nobody may see a private one, or that nobody answered.
  pub enrich-described :
      (geo : GeoService) (ip : String) → (enrich address client geo ip).0 ≡ described geo ip
  enrich-described geo ip = elim (Bool-cases (str_eq geo.forced_ip "")) [
    | inl e ↦ rw e (enrich-place_of geo ip ip (rw e refl))
    | inr e ↦ rw e (rw e at (enrich-place_of geo ip geo.forced_ip (rw e refl)))
  ]

  -- Every provider that is asked about an address that is not public needs no public address.
  pub enrich_private :
      (geo : GeoService) (ip : String)
      → is_public_ip address client (lookup_ip geo ip) ≡ false
      → All (Allowed false) (enrich address client geo ip).1
  unfolding enrich
  enrich_private geo ip h =
      let target = lookup_ip geo ip in
      let all =
        settle-Allowed false (try_chain address client geo.down target false 0 false geo.chain)
          (events-Allowed geo.down target false 0 false geo.chain) in
      elim (Bool-cases (str_eq target "")) [ inl e ↦ rw e tt | inr e ↦ rw (e, h) all ]
