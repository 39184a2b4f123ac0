-- ===== src/Samples.antt =====
-- Concrete data that the runs of the modules share.
use flyrank_capstone_widgetp.Base.{ℕ, String, true, false, Option, none, some, [], ◌∷◌}
use flyrank_capstone_widgetp.Json.{str, obj, Members, end, member, Python}
use flyrank_capstone_widgetp.Config.{defaults}
use flyrank_capstone_widgetp.Schema.{Field, Widget, Submission, Job, pending, processing}
use flyrank_capstone_widgetp.RateLimit.{new_limiter}
use flyrank_capstone_widgetp.Database.{Database}
use flyrank_capstone_widgetp.Geo.{empty}
use flyrank_capstone_widgetp.Accounts.{Accounts, Tenant}
use flyrank_capstone_widgetp.Submissions.{Env, State, Moment, Context, Payload}

-- A Python that prints and reads one number.
abbrev pub small_python : Python
small_python = record {
  int_text = λ _. "1";
  container_text = λ _. "[]";
  float_of_int = λ _. some "1.0";
  float_of_text = λ _. none;
}

abbrev pub name_field : Field
name_field = record {
  name = "name";
  label = "Name";
  kind = "text";
  required = true;
  max_length = some 5;
  options = none;
}

abbrev pub number_field : Field
number_field = record {
  name = "age";
  label = "Age";
  kind = "number";
  required = false;
  max_length = none;
  options = none;
}

abbrev pub contact : Widget
contact = record {
  id = "wgt_1";
  tenant_id = 1;
  kind = "contact";
  title = "Contact";
  description = "";
  fields = name_field ∷ [];
  button_text = "Send";
  options = obj end;
  config_version = 1;
  active = true;
  created_at = 0;
  updated_at = 0;
}

abbrev pub fresh_tables : Database
fresh_tables = record {
  widgets = contact ∷ [];
  submissions = [];
  jobs = [];
  next_submission = 1;
  next_job = 1;
  takes = λ _. true;
  accepts = λ _. true;
}

abbrev pub small_env : Env
small_env = record {
  cfg = defaults;
  python = small_python;
  geo = record { chain = []; down = []; forced_ip = "" };
  address = λ _. none;
  client = λ _ _. none;
  hz = 1;
}

abbrev pub fresh_state : State
fresh_state = record { db = fresh_tables; limiter = new_limiter 10 60 60 60 }

abbrev pub alone : ℕ → Moment
alone t = record {
  readings = record { sweep_ip = t; sweep_widget = t; hit_ip = t; hit_widget = t };
  now = t;
  before_create = λ db. db;
  before_refind = λ db. db;
}

abbrev pub given_data : Members
given_data = member "name" (str " Ada ") end

abbrev pub lead : Payload
lead = ("widget_id", str "wgt_1") ∷ ("data", obj given_data) ∷ []

abbrev pub keyed : Option String → Context
keyed key = record { ip = "10.0.0.1"; user_agent = none; referer = none; idempotency_key = key }

abbrev pub stored_lead : Submission
stored_lead = record {
  id = 1;
  widget_id = "wgt_1";
  tenant_id = 1;
  entries = ("name", str "Ada") ∷ [];
  ip = some "10.0.0.1";
  user_agent = none;
  referer = none;
  location = empty "skipped_private_ip";
  is_spam = false;
  spam_reason = none;
  idempotency_key = some "k";
  created_at = 0;
}

abbrev pub waiting : Job
waiting = record {
  id = 1;
  submission_id = 1;
  status = pending;
  attempts = 0;
  next_attempt_at = 0;
  last_error = none;
}

abbrev pub busy : Job
busy = record waiting { status = processing; attempts = 1 }

abbrev pub tables_with_lead : Database
tables_with_lead = record {
  widgets = contact ∷ [];
  submissions = stored_lead ∷ [];
  jobs = waiting ∷ [];
  next_submission = 2;
  next_job = 2;
  takes = λ _. true;
  accepts = λ _. true;
}

abbrev pub acme : Tenant
acme = record { id = 1; name = "Acme" }

abbrev pub one_tenant : Accounts
one_tenant = record { tenants = acme ∷ []; keys = []; next_tenant = 2; next_key = 1 }

abbrev pub one_key : Accounts
one_key = record one_tenant {
  keys = record { id = 1; tenant_id = 1; key_hash = "wpk_a"; label = "seed" } ∷ [];
  next_key = 2;
}

abbrev pub foreign_widget : Widget
foreign_widget = record contact { id = "wgt_2"; tenant_id = 2 }

abbrev pub shared_tables : Database
shared_tables = record tables_with_lead { widgets = contact ∷ foreign_widget ∷ [] }
