-- ===== src/Middleware/Admin.antt =====
-- app/middleware/cors.py: the admin API gets no CORS headers.
use flyrank_capstone_widgetp.Base.{ℕ, false, ◌≡◌, refl, ap, ◌∙◌, List, ◌++◌}
use flyrank_capstone_widgetp.Text.{codes}
use flyrank_capstone_widgetp.Middleware.{App, Request, is_public, allow_origins}

-- No path of the admin API is a public one.
is_public_admin : (rest : List ℕ) → is_public (codes "/api/" ++ rest) ≡ false
is_public_admin rest = refl

-- A request to a path below /api/, of whatever method and with whatever headers, is passed on, and
-- its reply is what the application gives: no CORS header is added, and no preflight is answered.
pub allow_origins_admin :
    (app : App) (request : Request) (rest : List ℕ)
    → request.path ≡ codes "/api/" ++ rest
    → allow_origins app request ≡ app request
unfolding allow_origins
allow_origins_admin app request rest h =
    let admin : is_public request.path ≡ false = ap is_public h ∙ is_public_admin rest in
    rw admin refl
