-- ===== src/Assets.antt =====
-- app/api/public.py: the files that the public API serves. Whether a file is there (Path.is_file) is a
-- parameter; an answer names the file whose content it has.
pub mod Names
mod Tests
use Prim.Native.String.{◌++◌ as str_append}
use flyrank_capstone_widgetp.Base.{
  ℕ, String, Bool, true, false, ◌&&◌, ◌||◌, Option, none, some, List, [], ◌∷◌, leb, ◌==◌, str_eq,
  lookup, if◌then◌else◌,
}
use flyrank_capstone_widgetp.Text.{codes}
use flyrank_capstone_widgetp.Config.{Config}
use flyrank_capstone_widgetp.Http.{Outcome, ok, raise, ◌>>=◌, message}
use flyrank_capstone_widgetp.Database.{Database}
use flyrank_capstone_widgetp.Delivery.{get_active, loader_script}

-- The media type and the headers of Cache-Control: `max_age`, and whether it is `immutable`.
pub record Asset : Type 0 where
  pub path : String
  pub media_type : String
  pub max_age : ℕ
  pub immutable : Bool

pub record Script : Type 0 where
  pub content : String
  pub max_age : ℕ

-- `[0-9]*$`, where `$` stands before a last newline too
abbrev pub is_digits_end : List ℕ → Bool
is_digits_end [] = true
is_digits_end (c ∷ []) = (leb b'0' c && leb c b'9') || c == 10
is_digits_end (c ∷ cs) = (leb b'0' c && leb c b'9') && is_digits_end cs

-- `^v[0-9]+$`
abbrev pub is_version : List ℕ → Bool
is_version (v ∷ c ∷ cs) = v == b'v' && ((leb b'0' c && leb c b'9') && is_digits_end cs)
is_version _ = false

abbrev pub fonts : List (String × String)
fonts = ("inter-latin.woff2", "font/woff2") ∷ ("jetbrains-mono-latin.woff2", "font/woff2") ∷ []

abbrev pub brand : List (String × String)
brand =
    ("icon-512.png", "image/png")
    ∷ ("icon-180.png", "image/png")
    ∷ ("icon-48.png", "image/png")
    ∷ ("icon-32.png", "image/png")
    ∷ ("icon-16.png", "image/png")
    ∷ ("flyrank-wordmark-onlight.svg", "image/svg+xml")
    ∷ ("flyrank-wordmark-ondark.svg", "image/svg+xml")
    ∷ ("dashboard.png", "image/png")
    ∷ ("dashboard.mp4", "video/mp4")
    ∷ ("dashboard.webm", "video/webm")
    ∷ []

module _ (cfg : Config) (is_file : String → Bool) where
  -- `widget_bundle`
  unfoldable pub widget_bundle : String → Outcome Asset
  widget_bundle version =
      let path = str_append "widget." (str_append version ".js") in
      if is_version (codes version)
      then if is_file path
        then ok (record {
          path = path;
          media_type = "application/javascript; charset=utf-8";
          max_age = cfg.bundle_max_age;
          immutable = true;
        })
        else raise 404 (message "Unknown bundle version")
      else raise 404 (message "Unknown bundle version")

  abbrev pub listed_asset : String → String → Option String → String → Outcome Asset
  listed_asset folder filename none missing = raise 404 (message missing)
  listed_asset folder filename (some media_type) missing =
      let path = str_append folder (str_append "/" filename) in
      if is_file path
      then ok (record {
        path = path;
        media_type = media_type;
        max_age = cfg.bundle_max_age;
        immutable = true;
      })
      else raise 404 (message missing)

  -- `immutable_asset`
  unfoldable pub immutable_asset : String → String → List (String × String) → String → Outcome Asset
  unfolding lookup
  immutable_asset folder filename allowed missing =
      listed_asset folder filename (lookup filename allowed) missing

  -- `font_file` and `brand_asset`
  unfoldable pub font_file : String → Outcome Asset
  unfolding immutable_asset
  font_file filename = immutable_asset "fonts" filename fonts "Unknown font"

  unfoldable pub brand_asset : String → Outcome Asset
  unfolding immutable_asset
  brand_asset filename = immutable_asset "brand" filename brand "Unknown brand asset"

  -- `design_tokens`
  abbrev pub design_tokens : Asset
  design_tokens = record {
    path = "design-tokens.css";
    media_type = "text/css; charset=utf-8";
    max_age = cfg.config_max_age;
    immutable = false;
  }

-- The headers of a page that no browser keeps.
pub record HtmlPage : Type 0 where
  pub path : String
  pub media_type : String
  pub cache_control : String

-- `html_page`, and its two routes
abbrev pub html_page : String → HtmlPage
html_page filename = record {
  path = filename;
  media_type = "text/html; charset=utf-8";
  cache_control = "no-store";
}

abbrev pub landing_page : HtmlPage
landing_page = html_page "landing.html"

abbrev pub dashboard_page : HtmlPage
dashboard_page = html_page "dashboard.html"

-- `widget_loader`
unfoldable pub widget_loader : Config → (String → String) → String → Database → Outcome Script
unfolding get_active
widget_loader cfg dumps widget_id db = get_active widget_id db >>= λ w.
    ok (record { content = loader_script cfg dumps w; max_age = cfg.loader_max_age })
