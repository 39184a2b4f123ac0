-- ===== src/Lib.antt =====
-- The widget and lead-capture platform: a tenant declares a widget with its fields, a website embeds
-- it, visitors post submissions, and a worker notifies the tenant.
--
-- A post goes through app/services/submissions.py: the widget is looked up (delivery), the payload is
-- checked against its fields (validation), the limits are charged (ratelimit), a replay is looked
-- for, the address is located (geo), and one transaction inserts the row and its notification job
-- (repositories/submissions). The worker (services/notifications, repositories/notifications) claims
-- due jobs and delivers them.
--
--   RateLimit       app/services/ratelimit.py: RateLimiter as RateLimiter and `check`; Window is the
--                   class FixedWindow (`hit`, `sweep`), Window/Budget what it admits, Window/Retry
--                   the wait, Window/Sweep and Unswept that sweeping changes no verdict.
--   Validation      app/services/validation.py: `validate_submission` and `coerce`; Email is
--                   EMAIL_PATTERN, Outcomes what one value becomes, Given and Converts
--                   describe it apart from the code, Loop the loop over the fields,
--                   Accepts and Refusals the whole.
--   Geo             app/services/geo.py: the providers and `enrich`; Chain describes the chain.
--   Submissions     app/services/submissions.py: `submit` in the stages accept, admit, store_once and
--                   store, each from one point of the method to its end.
--   Database        the tables of migrations/001_init.sql and app/repositories/submissions.py;
--                   Consistency and Replays are about `create`. Which texts and rows the server refuses
--                   as data (a NUL, a NaN) is a parameter of the tables, `takes` and `accepts`.
--   Notifications   app/services/notifications.py and app/repositories/notifications.py; Attempts is
--                   about one job, Claims and Batches about a claim, Worker is the loop of run, Lifecycle
--                   and Runs are what it makes of the table, Progress and Ends that all jobs end, Budget
--                   and Settled the steps to that, Stuck what a stop of the worker does to a job.
--   Widgets         app/services/widgets.py and app/repositories/widgets.py; Fields is check_fields,
--                   Tenants and Usable what every call keeps, Versions a patch, Declared what the
--                   validation makes of a checked list.
--   Dashboard       app/services/dashboard.py with the lists of app/repositories/submissions.py and the
--                   headline counts of app/repositories/stats.py; Pages and Counts.
--   Delivery        app/services/delivery.py: get_active, public_config, config_etag and loader_script.
--   Public          app/api/public.py: widget_config; Caching joins it to a tenant's patch.
--   Posts           app/api/public.py: create_submission, from the bytes of a request to its answer, and
--                   client_ip; Answers is about what a visitor is answered.
--   Assets          app/api/public.py: the loader, the bundle, fonts, brand files, tokens and pages; Names is
--                   about the names that lead to a file.
--   Stats           app/repositories/stats.py: by_widget, by_country and timeseries; Series, Countries.
--   Accounts        app/repositories/tenants.py, app/core/ids.py and app/api/deps.py: tenants, keys and
--                   require_tenant; Keys is about issuing one.
--   Admin           app/api/widgets.py and app/api/dashboard.py: the endpoints behind require_tenant, with
--                   the constraints of their models; Access, Shows, Holds and Nulls.
--   Middleware      app/middleware/cors.py and app/middleware/body_limit.py; Admin is about the paths that
--                   get no CORS headers.
--   Wiring          app/main.py and app/core/errors.py: the middleware around the routes and the handlers
--                   of refusals; Cors is about the whole.
--   Startup         app/core/db.py: build_pool (Waiting) and run_migrations (Migrations).
--   Seed            scripts/seed.py: the demo data and seed; Stores is the loop over the widgets, Turns
--                   that of a tenant, Again two runs.
--   System          the parts together: histories of visitors' requests, with what others commit between
--                   their statements, of calls and of turns. Deletes, Rows, Turns and Calls are what
--                   each of them keeps, Keeps and Invariant are about all of them, Leads about the
--                   end of a lead.
--   Config, Schema  app/config.py, and the rows of migrations/001_init.sql.
--   Text, Json, Http  what the code uses of Python's str and JSON values, and how a call can end: by a
--                   value (ok), by an HTTPException (http) or by another exception (crash).
--
-- Numbers are natural numbers. The monotonic clock counts ticks, `hz` of them a second; the
-- database's clock counts seconds. Every loop is structural recursion but build_pool's, which is on
-- fuel: one try more than the seconds to wait is enough. One SQL statement, and one transaction, is
-- one step; what other connections commit between two steps of a request is a function of the Moment.
-- Parameters stand for what is not of this repository: httpx (Client, Webhook), ipaddress (Address),
-- Python's conversions of numbers (Python), json (Loads), sha256 (Digest), random tokens, connections
-- (Attempts) and what a migration does to the database.
--
-- Not modelled: texts that PostgreSQL refuses in the calls of a tenant and in the worker's and the
-- dashboard's statements (only `get_public` and `create`, which visitors reach, can fail so), a
-- connection that fails or is not to be had while a request is served, the routing of FastAPI, asyncio
-- and threads (a step is what a lock or a statement makes atomic), PostgreSQL itself beyond the
-- statements, printed lines other than those of the geo chain, the collation of texts (they are
-- ordered by code points), the browser code.
mod Base
pub mod Text
pub mod Json
pub mod Config
pub mod Http
pub mod RateLimit
pub mod Schema
pub mod Validation
pub mod Database
pub mod Delivery
pub mod Geo
pub mod Submissions
pub mod Notifications
pub mod Widgets
pub mod Dashboard
pub mod Public
pub mod Middleware
pub mod Stats
pub mod Accounts
pub mod Admin
pub mod Posts
pub mod Assets
pub mod Startup
pub mod Seed
pub mod Wiring
pub mod System
mod Samples
