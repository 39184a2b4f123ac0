-- ===== src/Geo/Tests.antt =====
-- app/services/geo.py: the theorems at chains that meet their hypotheses.
use flyrank_capstone_widgetp.Base.{String, true, false, ◌≡◌, refl, Option, none, some, [], ◌∷◌}
use flyrank_capstone_widgetp.Geo.{
  Address, Client, GeoService, ipapi, mock, enrich, is_public_ip, lookup_ip,
}
use flyrank_capstone_widgetp.Geo.Chain.{described, enrich-described}

abbrev two_services : GeoService
two_services = record {
  chain = ipapi ∷ mock "mock_a" "Spain" "ES" "Madrid" ∷ [];
  down = [];
  forced_ip = "";
}

abbrev home : String → Option Address
home ip =
    some (record {
      is_private = true;
      is_loopback = false;
      is_link_local = false;
      is_reserved = false;
    })

abbrev silent : Client
silent url params = none

-- A configured address takes the place of the visitor's.
abbrev forced : GeoService
forced = record two_services { forced_ip = "10.0.0.9" }

enrich-described_example :
    (enrich home silent forced "10.0.0.1").0 ≡ described home silent forced "10.0.0.1"
enrich-described_example = enrich-described home silent forced "10.0.0.1"

home_private : is_public_ip home silent (lookup_ip two_services "10.0.0.1") ≡ false
unfolding is_public_ip
home_private = refl
