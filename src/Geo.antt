-- ===== src/Geo.antt =====
-- app/services/geo.py: the chain of lookup services.
-- The HTTP client (httpx) and the standard library's `ipaddress` are parameters. Printed lines are
-- events of a log.
pub mod Chain
mod Tests
use flyrank_capstone_widgetp.Base.{
  ℕ, zero, suc, ◌+◌, String, Bool, true, false, not, ◌&&◌, ◌||◌, Option, none, some, List, [], ◌∷◌,
  ◌++◌, any, ◌==◌, str_eq, lookup, if◌then◌else◌,
}
use Prim.Native.String.{◌++◌ as str_append}
use flyrank_capstone_widgetp.Json.{Json, null, str, obj, entries, truthy}
use flyrank_capstone_widgetp.Config.{Config}
use flyrank_capstone_widgetp.Schema.{Location}

-- What `ipaddress.ip_address` says of a text that it can read; `none` is its ValueError.
pub record Address : Type 0 where
  pub is_private : Bool
  pub is_loopback : Bool
  pub is_link_local : Bool
  pub is_reserved : Bool

abbrev address_is_public : Option Address → Bool
address_is_public none = false
address_is_public (some a) =
    not (a.is_private || (a.is_loopback || (a.is_link_local || a.is_reserved)))

-- A lookup raises (`none`) or answers.
pub record Answer : Type 0 where
  pub country : Json
  pub country_code : Json
  pub city : Json

-- `body.get(key)`, where a missing key is None; a body that is no object has no `get`.
abbrev field_or_null : Option Json → Json
field_or_null none = null
field_or_null (some v) = v

-- An answered request: its status code, and its body if that is JSON.
pub record Response : Type 0 where
  pub success : Bool
  pub body : Option Json

-- A GET with its parameters, or `none` where the client raises.
abbrev pub Client : Type 0
Client = String → List (String × String) → Option Response

abbrev ask : List (String × Json) → String → Json
ask body key = field_or_null (lookup key body)

-- `body.get("status") != "success"` raises.
unfoldable pub read_ipapi : Option Json → Option Answer
read_ipapi (some (obj ms)) =
    let body = entries ms in
    elim (ask body "status") [
      | str s ↦
          if str_eq s "success"
          then some (record {
            country = ask body "country";
            country_code = ask body "countryCode";
            city = ask body "city";
          })
          else none
      | _ ↦ none
    ]
read_ipapi _ = none

-- `if body.get("error")` raises.
unfoldable pub read_ipapico : Option Json → Option Answer
read_ipapico (some (obj ms)) =
    let body = entries ms in
    if truthy (ask body "error")
    then none
    else some (record {
      country = ask body "country_name";
      country_code = ask body "country_code";
      city = ask body "city";
    })
read_ipapico _ = none

-- `raise_for_status()` and `json()`
abbrev read_response : (Option Json → Option Answer) → Option Response → Option Answer
read_response read none = none
read_response read (some r) = if r.success then read r.body else none

pub record Provider : Type 0 where
  pub name : String
  pub needs_public_ip : Bool
  pub look : String → Client → Option Answer

abbrev pub ipapi : Provider
ipapi = record {
  name = "ip-api.com";
  needs_public_ip = true;
  look = λ ip client. read_response read_ipapi (
      client (str_append "http://ip-api.com/json/" ip)
        (("fields", "status,message,country,countryCode,city") ∷ []));
}

abbrev pub ipapico : Provider
ipapico = record {
  name = "ipapi.co";
  needs_public_ip = true;
  look = λ ip client.
      read_response read_ipapico
        (client (str_append "https://ipapi.co/" (str_append ip "/json/")) []);
}

-- `MockProvider(name, answer)`
abbrev pub mock : String → String → String → String → Provider
mock name country code city = record {
  name = name;
  needs_public_ip = false;
  look = λ ip client.
      some (record { country = str country; country_code = str code; city = str city });
}

abbrev pub providers : List (String × Provider)
providers =
    ("ipapi", ipapi)
    ∷ ("ipapico", ipapico)
    ∷ ("mock_a", mock "mock_a" "Spain" "ES" "Madrid")
    ∷ ("mock_b", mock "mock_b" "Germany" "DE" "Berlin")
    ∷ []

-- `EMPTY` with a status
abbrev pub empty : String → Location
empty status = record {
  country = null;
  country_code = null;
  city = null;
  geo_provider = none;
  geo_status = status;
}

pub record GeoService : Type 0 where
  pub chain : List Provider
  pub down : List ℕ
  pub forced_ip : String

-- `[PROVIDERS[name] for name in provider_names if name in PROVIDERS]`
abbrev pub chain_of : List String → List Provider
chain_of [] = []
chain_of (name ∷ names) =
    let rest = chain_of names in elim (lookup name providers) [ none ↦ rest | some q ↦ q ∷ rest ]

abbrev when {ℓ} : {A : Type ℓ} → Bool → A → List A
when b a = if b then a ∷ [] else []

-- `GeoService.from_config`
unfoldable pub from_config : Config → GeoService
from_config cfg = record {
  chain = chain_of cfg.geo_providers;
  down = when cfg.geo_provider_a_down 0 ++ when cfg.geo_provider_b_down 1;
  forced_ip = cfg.geo_force_client_ip;
}

-- The lines that `enrich` prints, and the lookups that it makes.
pub data Event : Type 0 where
  marked_down failed : String → Event
  asked : Provider → Event
  no_answer : Event

pub record Tried : Type 0 where
  pub attempted : Bool
  pub found : Option Location
  pub events : List Event

abbrev log : Event → Tried → Tried
log e t = record t { events = e ∷ t.events }

-- One round of the loop: the provider is marked down, is passed over, fails, answers with no place,
-- or answers.
pub data Round : Type 0 where
  is_down is_private fails blank : Round
  answers : Location → Round

abbrev pub located : String → Answer → Location
located name a = record {
  country = a.country;
  country_code = a.country_code;
  city = a.city;
  geo_provider = some name;
  geo_status = "ok";
}

abbrev pub round_of : String → Option Answer → Round
round_of name none = fails
round_of name (some a) =
    if truthy a.country || truthy a.city then answers (located name a) else blank

abbrev pub settle : Bool → Tried → Location × List Event
settle public t = elim t.found [
  | some place ↦ (place, t.events)
  | none ↦
      if not t.attempted && not public
      then (empty "skipped_private_ip", t.events)
      else (empty "unavailable", t.events ++ no_answer ∷ [])
]

-- `self.forced_ip or ip`
abbrev pub lookup_ip : GeoService → String → String
lookup_ip geo ip = if str_eq geo.forced_ip "" then ip else geo.forced_ip

module _ (address : String → Option Address) (client : Client) where
  unfoldable pub is_public_ip : String → Bool
  is_public_ip ip = address_is_public (address ip)

  module _ (down : List ℕ) (ip : String) (public : Bool) where
    unfoldable pub try_round : ℕ → Provider → Round
    try_round position q =
        if any (λ d. d == position) down
        then is_down
        else if q.needs_public_ip && not public
        then is_private
        else round_of q.name (q.look ip client)

    unfoldable pub try_chain : ℕ → Bool → List Provider → Tried
    unfolding try_round
    try_chain position attempted [] = record { attempted = attempted; found = none; events = [] }
    try_chain position attempted (q ∷ qs) = elim (try_round position q) [
      | is_down ↦ log (marked_down q.name) (try_chain (suc position) attempted qs)
      | is_private ↦ try_chain (suc position) attempted qs
      | fails ↦ log (asked q) (log (failed q.name) (try_chain (suc position) true qs))
      | blank ↦ log (asked q) (try_chain (suc position) true qs)
      | answers place ↦ record { attempted = true; found = some place; events = asked q ∷ [] }
    ]

  -- `enrich`
  unfoldable pub enrich : GeoService → String → Location × List Event
  unfolding is_public_ip try_chain
  enrich geo ip =
      let target = lookup_ip geo ip in
      let public = is_public_ip target in
      if str_eq target ""
      then (empty "skipped_no_ip", [])
      else settle public (try_chain geo.down target public 0 false geo.chain)
