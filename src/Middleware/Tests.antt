-- ===== src/Middleware/Tests.antt =====
-- app/middleware/cors.py: the theorem at a request that meets its hypothesis.
use flyrank_capstone_widgetp.Base.{◌≡◌, refl, [], ◌∷◌}
use flyrank_capstone_widgetp.Text.{codes}
use flyrank_capstone_widgetp.Http.{ok}
use flyrank_capstone_widgetp.Middleware.{App, Request, allow_origins}
use flyrank_capstone_widgetp.Middleware.Admin.{allow_origins_admin}

abbrev found : App
found request = ok (record { status = 200; headers = [] })

abbrev preflight : Request
preflight = record {
  path = codes "/api/widgets";
  method = "OPTIONS";
  headers = ("origin", "https://x") ∷ ("access-control-request-method", "PATCH") ∷ [];
}

allow_origins_admin_example : allow_origins found preflight ≡ found preflight
allow_origins_admin_example = allow_origins_admin found preflight (codes "widgets") refl
