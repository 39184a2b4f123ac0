-- ===== src/Wiring/Tests.antt =====
-- app/main.py: the theorems at requests that meet their hypotheses.
use flyrank_capstone_widgetp.Base.{◌≡◌, refl, [], ◌∷◌, lookup, arith}
use flyrank_capstone_widgetp.Text.{codes}
use flyrank_capstone_widgetp.Config.{defaults}
use flyrank_capstone_widgetp.Http.{ok, raise, message}
use flyrank_capstone_widgetp.Samples.{small_python}
use flyrank_capstone_widgetp.Middleware.{Request, Reply, App}
use flyrank_capstone_widgetp.Wiring.{application, describe_validation_error}
use flyrank_capstone_widgetp.Wiring.Cors.{IsCrossOrigin, IsReadable, application_too_large}

abbrev post_from_elsewhere : Request
post_from_elsewhere = record {
  path = codes "/public/submissions";
  method = "POST";
  headers = ("origin", "https://shop.example") ∷ ("content-length", "99999999") ∷ [];
}

abbrev get_from_elsewhere : Request
get_from_elsewhere = record {
  path = codes "/public/widgets/x/config";
  method = "GET";
  headers = ("origin", "https://shop.example") ∷ [];
}

post-IsCrossOrigin : IsCrossOrigin post_from_elsewhere
unfolding lookup
post-IsCrossOrigin = record { public_path = refl; from_origin = refl; not_preflight = refl }

-- Routes that know no widget.
abbrev refusing : App
refusing request = raise 404 (message "Widget not found")

application_too_large_example :
    (reply : Reply) × (application defaults small_python refusing post_from_elsewhere ≡ ok reply)
    × (reply.status ≡ 413)
    × IsReadable reply
unfolding lookup
application_too_large_example =
    application_too_large defaults small_python refusing post_from_elsewhere "99999999" 99999999
      post-IsCrossOrigin refl refl refl (omega arith)

body_is_left_out :
    describe_validation_error ("body" ∷ "fields" ∷ "0" ∷ "name" ∷ [], "too short")
    ≡ "fields.0.name: too short"
unfolding describe_validation_error
body_is_left_out = refl
