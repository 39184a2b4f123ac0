-- ===== src/Schema.antt =====
-- The rows of migrations/001_init.sql as the repositories read them, and a widget's fields, which
-- app/api/widgets.py declares as `FieldSpec` and the table keeps as JSON.
-- Instants are seconds; text columns are native strings.
use flyrank_capstone_widgetp.Base.{ℕ, String, Bool, Option, List}
use flyrank_capstone_widgetp.Json.{Json}

pub record Field : Type 0 where
  pub name : String
  pub label : String
  pub kind : String
  pub required : Bool
  pub max_length : Option ℕ
  pub options : Option (List String)

pub record Widget : Type 0 where
  pub id : String
  pub tenant_id : ℕ
  pub kind : String
  pub title : String
  pub description : String
  pub fields : List Field
  pub button_text : String
  pub options : Json
  pub config_version : ℕ
  pub active : Bool
  pub created_at : ℕ
  pub updated_at : ℕ

-- What a geo lookup adds to a submission.
pub record Location : Type 0 where
  pub country : Json
  pub country_code : Json
  pub city : Json
  pub geo_provider : Option String
  pub geo_status : String

pub record Submission : Type 0 where
  pub id : ℕ
  pub widget_id : String
  pub tenant_id : ℕ
  pub entries : List (String × Json)
  pub ip : Option String
  pub user_agent : Option String
  pub referer : Option String
  pub location : Location
  pub is_spam : Bool
  pub spam_reason : Option String
  pub idempotency_key : Option String
  pub created_at : ℕ

pub data Status : Type 0 where
  pending processing delivered dead : Status

pub record Job : Type 0 where
  pub id : ℕ
  pub submission_id : ℕ
  pub status : Status
  pub attempts : ℕ
  pub next_attempt_at : ℕ
  pub last_error : Option String
