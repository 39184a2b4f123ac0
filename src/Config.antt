-- ===== src/Config.antt =====
-- app/config.py: the settings that the modelled code reads, with the defaults of the environment.
use flyrank_capstone_widgetp.Base.{ℕ, String, Bool, false, List, [], ◌∷◌}

pub record Config : Type 0 where
  pub public_base_url : String
  pub widget_bundle_version : String
  pub bundle_max_age : ℕ
  pub loader_max_age : ℕ
  pub config_max_age : ℕ
  pub trust_proxy_headers : Bool
  pub max_body_bytes : ℕ
  pub max_field_length : ℕ
  pub rate_limit_per_ip : ℕ
  pub rate_limit_per_ip_window : ℕ
  pub rate_limit_per_widget : ℕ
  pub rate_limit_per_widget_window : ℕ
  pub honeypot_field : String
  pub geo_providers : List String
  pub geo_provider_a_down : Bool
  pub geo_provider_b_down : Bool
  pub geo_force_client_ip : String
  pub webhook_url : String
  pub notify_force_failure : Bool
  pub notify_max_attempts : ℕ

abbrev pub defaults : Config
defaults = record {
  public_base_url = "http://localhost:8000";
  widget_bundle_version = "v1";
  bundle_max_age = 31536000;
  loader_max_age = 300;
  config_max_age = 60;
  trust_proxy_headers = false;
  max_body_bytes = 8192;
  max_field_length = 2000;
  rate_limit_per_ip = 10;
  rate_limit_per_ip_window = 60;
  rate_limit_per_widget = 60;
  rate_limit_per_widget_window = 60;
  honeypot_field = "website";
  geo_providers = "ipapi" ∷ "ipapico" ∷ [];
  geo_provider_a_down = false;
  geo_provider_b_down = false;
  geo_force_client_ip = "";
  webhook_url = "";
  notify_force_failure = false;
  notify_max_attempts = 4;
}
