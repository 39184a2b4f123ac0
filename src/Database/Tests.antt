-- ===== src/Database/Tests.antt =====
-- app/repositories/submissions.py: the theorems at tables that meet their hypotheses.
use flyrank_capstone_widgetp.Base.{false, none, some, [], ◌∷◌}
use flyrank_capstone_widgetp.Json.{str}
use flyrank_capstone_widgetp.Geo.{empty}
use flyrank_capstone_widgetp.Samples.{fresh_tables}
use flyrank_capstone_widgetp.Database.{NewSubmission}
use flyrank_capstone_widgetp.Database.Consistency.{IsValid}

abbrev offered : NewSubmission
offered = record {
  widget_id = "wgt_1";
  tenant_id = 1;
  entries = ("name", str "Ada") ∷ [];
  ip = none;
  user_agent = none;
  referer = none;
  location = empty "skipped_no_ip";
  is_spam = false;
  spam_reason = none;
  idempotency_key = some "k";
}

fresh-IsValid : IsValid fresh_tables
fresh-IsValid = record { keyed = tt; fresh = tt; served = tt; owned = tt }
