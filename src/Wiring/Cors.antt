-- ===== src/Wiring/Cors.antt =====
-- app/main.py with app/middleware: the headers that a website needs to read an answer.
use flyrank_capstone_widgetp.Base.{
  ℕ, ◌<◌, String, true, false, ◌&&◌, ◌≡◌, refl, some, List, [], ◌++◌, arith, ltb, lookup, insert,
  str_eq, ◌⊎◌,
}
use flyrank_capstone_widgetp.Text.{codes}
use flyrank_capstone_widgetp.Json.{Python}
use flyrank_capstone_widgetp.Config.{Config}
use flyrank_capstone_widgetp.Http.{Outcome, ok, crash, Exception, value_error}
use flyrank_capstone_widgetp.Middleware.{
  Request, Reply, App, is_public, is_given, all_digits, read_int, with_origin, allow_origins,
  limit_body,
}
use flyrank_capstone_widgetp.Wiring.{application}

-- A cross-origin request below one of the public prefixes that is not a preflight.
pub record IsCrossOrigin (request : Request) : Type 0 where
  pub public_path : is_public request.path ≡ true
  pub from_origin : is_given (lookup "origin" request.headers) ≡ true
  pub not_preflight :
      (str_eq request.method "OPTIONS"
        && is_given (lookup "access-control-request-method" request.headers))
      ≡ false

-- What allows a page of any origin to read the answer.
abbrev pub IsReadable : Reply → Type 0
IsReadable reply = lookup "Access-Control-Allow-Origin" reply.headers ≡ some "*"

-- The paths of the public surface: the loader, and what is at or below the two directories.
pub data IsPublicPath (path : List ℕ) : Type 0 where
  loader : (rest : List ℕ) → path ≡ codes "/widget.js" ++ rest → IsPublicPath path
  below_static : (rest : List ℕ) → path ≡ codes "/static/" ++ rest → IsPublicPath path
  below_public : (rest : List ℕ) → path ≡ codes "/public/" ++ rest → IsPublicPath path

-- How a request ends that the routes see, or that is too large for them: with a reply, or with an
-- exception, which is theirs or that of a Content-Length that `int` cannot read.
data Ends (routed : Outcome Reply) (end : Outcome Reply) : Type 0 where
  replied : (reply : Reply) → end ≡ ok reply → Ends routed end
  failed :
      (x : Exception) → end ≡ crash x → (routed ≡ crash x) ⊎ (x ≡ value_error) → Ends routed end

-- How a request to the public surface ends: with a reply that the page can read, or with such an
-- exception.
pub data ReadableEnds (routed : Outcome Reply) (end : Outcome Reply) : Type 0 where
  readable : (reply : Reply) → end ≡ ok reply → IsReadable reply → ReadableEnds routed end
  broken :
      (x : Exception)
      → end ≡ crash x
      → (routed ≡ crash x) ⊎ (x ≡ value_error)
      → ReadableEnds routed end

module _ (cfg : Config) (python : Python) (routes : App) (request : Request) where
  -- A cross-origin request whose Content-Length names more bytes than the limit is answered with a
  -- 413 that the page can read, whatever the routes are: they are not reached.
  pub application_too_large :
      (declared : String) (n : ℕ)
      → IsCrossOrigin request
      → lookup "content-length" request.headers ≡ some declared
      → (is_given (some declared) && all_digits (codes declared)) ≡ true
      → read_int 0 (codes declared) ≡ ok n
      → cfg.max_body_bytes < n
      → (reply : Reply) × (application cfg python routes request ≡ ok reply)
        × (reply.status ≡ 413)
        × IsReadable reply
  unfolding application allow_origins limit_body lookup insert
  application_too_large declared n c given digits value large =
      let over : ltb cfg.max_body_bytes n ≡ true = ground arith in
      (
        with_origin true (record { status = 413; headers = [] }),
        rw (c.public_path, c.not_preflight, c.from_origin, limit_body, given, digits, value, over)
            refl,
        refl,
        refl,
      )
