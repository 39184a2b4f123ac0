-- ===== src/Public.antt =====
-- app/api/public.py: the endpoint that the widget reads its configuration from.
pub mod Caching
mod Tests
use flyrank_capstone_widgetp.Base.{
  ℕ, String, Bool, false, Option, none, some, str_eq, if◌then◌else◌,
}
use flyrank_capstone_widgetp.Json.{Python}
use flyrank_capstone_widgetp.Config.{Config}
use flyrank_capstone_widgetp.Http.{Outcome, ok, ◌>>=◌}
use flyrank_capstone_widgetp.Schema.{Widget}
use flyrank_capstone_widgetp.Database.{Database}
use flyrank_capstone_widgetp.Delivery.{get_active, PublicConfig, public_config, config_etag}

-- The response: its status, the headers ETag and Cache-Control (`max_age`), and its body.
pub record ConfigResponse : Type 0 where
  pub status : ℕ
  pub etag : String
  pub max_age : ℕ
  pub body : Option PublicConfig

-- `request.headers.get("if-none-match") == etag`
abbrev pub matches : Option String → String → Bool
matches none etag = false
matches (some known) etag = str_eq known etag

module _ (cfg : Config) (p : Python) where
  abbrev pub config_response : Option String → Widget → ConfigResponse
  config_response known widget =
      let etag = config_etag p widget in
      if matches known etag
      then record { status = 304; etag = etag; max_age = cfg.config_max_age; body = none }
      else record {
        status = 200;
        etag = etag;
        max_age = cfg.config_max_age;
        body = some (public_config cfg widget);
      }

  -- `widget_config`
  unfoldable pub widget_config : String → Option String → Database → Outcome ConfigResponse
  unfolding config_etag
  widget_config widget_id known db =
      get_active widget_id db >>= λ widget. ok (config_response known widget)
