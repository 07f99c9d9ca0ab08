-- ===== src/Lib.antt =====
-- A model of the EU Trusted Flaggers mirror: the scraper that keeps a table of flaggers and a
-- changelog in step with the published register, and the API that serves them.
--
-- How the parts meet. A scrape fetches the page of the register, takes the address of its data from
-- the page, fetches and opens the envelope, normalizes the rows, and reconciles the table with them,
-- logging one event for every change; the table is then exported and pushed as open data. The API
-- answers from the same tables, and meters its clients with sliding windows in Redis.
--
-- Files and sources, with paths from the root of the repository:
--   Base            names of the libraries, tests on numbers, lists, Python's dict as an association
--                   list (Dicts)
--   Text            Python's str as its code points
--   Json            the values of json.loads
--   Enums, Models   core/enums.py, core/models.py, core/db.py: the statuses, the scraped row, and the
--                   rows of the tables; a UUID is its number, a time a number of microseconds
--   Fetch           apps/scraper/fetch.py: fetch as attempt_from, with its trace of requests and
--                   pauses, on any answers of the client
--   Parse           apps/scraper/parse.py: extract_api_url (Page) and parse_api_response (Envelope)
--   Normalize       core/normalize.py: the helpers (Areas, Country, Dates, Emails), normalize_row and
--                   normalize_rows of apps/scraper/parse.py (Rows), compute_row_hash (Hashes)
--   Ingest          apps/scraper/ingest.py: compute_diff and the dictionaries it compares (Compare),
--                   apply_diff on a record of the session (Reconcile)
--   Run             apps/scraper/ingest.py: run_ingest over the database, Redis, the published data and
--                   the alerts, with a fault at any step (Scrape), its steps by the models above
--                   (Sources), the process of apps/scraper/__main__.py (Main) with its exit code (Exit), and
--                   one run after the other (Always)
--   Export          apps/scraper/export.py: what is written of a row and of an event (Dicts), and the
--                   files of export_all (Files)
--   Publish         apps/scraper/publish.py: publish_changes over the answers of git (Git)
--   Timestamps      core/timestamps.py: the time of the last scrape in Redis
--   Watchdog        apps/scraper/watchdog.py and core/notify.py: a run with its message, its post and its
--                   end (Check), and the watchdog after a run of the scraper (Relay)
--   RateLimit       core/ratelimit.py: the sorted set (Zset) and check_limit as two round trips
--                   (Check); times are ticks, a million to a second
--   Api             apps/api/main.py: the address of a client (Client), the middleware of the limits
--                   over the keys in Redis (Meter), the source headers, health, version and root
--                   (Probes), what create_app configures (Creation), and a request through all the
--                   middlewares, over Redis that may be down and routes that may raise (App)
--   Routes          apps/api/routers: the tables as the routes read them (Tables), trusted_flaggers.py
--                   (Listing, Lookup), changes.py (Changes), stats.py (Stats), badges.py (Badges) and
--                   waitlist.py (Waitlist); what core/models.py demands of a row that is shown
--                   (Serialize), and the bodies of the replies (Replies)
--   Settings        core/config.py: normalize_database_url (Database), the fields with their defaults,
--                   and get_settings (Fields)
--   Wiring          apps/api/deps.py with make_engine and make_session_factory of core/db.py: the caches
--                   of a process (Deps); core/observability.py: init_sentry (Sentry)
--   Migration       migrations/versions/edce10f23379_initial_schema.py: its statements (Statements) on
--                   a catalog (Catalog), and the tables of core/db.py (Metadata); migrations/env.py: the
--                   environment of the scripts (Environment)
--
-- State is passed explicitly: the session of apply_diff is a record of the loaded rows, the new rows,
-- the new events and the counters; a key of the limiter is its entries and its expiry. Checks that
-- overlap are a relation on the steps of their two round trips (RateLimit.Race). Exceptions are values:
-- the outcomes of fetch, the errors of the page and the envelope, the bad rows.
--
-- No loop needs fuel: the attempts of fetch go down with the range, every other loop follows a list.
-- Numbers are unbounded as in Python.
--
-- The parts are joined where they meet: the steps of a run are the models of its sources, the routes
-- read the tables that runs leave (Routes.Complete, Routes.Served), the watchdog reads the time stamp
-- that a run writes (Watchdog.Relay), and the requests of the application are those of the limiter of its settings (Api.Reached).
--
-- Parameters stand for what is not in the repository: raise_for_status and the answers of the client
-- in Fetch, json.loads in Parse, uuid5, json.dumps and sha256 in Normalize, the tables of Unicode
-- (lower, upper, decimal digits, UTF-8), of which Normalize has an ASCII instance, urllib.parse in
-- Settings and Routes.Lookup, the sources and readings of pydantic's settings in Settings, the
-- answers of git in Publish, json.dumps and the writer of csv in Export, isoformat and fromisoformat,
-- the middleware of CORS and the framework's answer to an exception in Api, the addresses that the drivers take in Wiring, the options of Alembic
-- in Migration, and the ORDER BY, ILIKE and lower of the database in Routes. A theorem that depends on
-- one names the law that it needs as a hypothesis.
--
-- What a run meets outside (the answers of its steps, the commits, Redis, export and publication) is
-- a record in Run. A page of rows is cut out of the ordered rows, and each query has its own order of
-- rows that its ORDER BY takes for equal. Redis is up or down for the whole of a request, and the
-- checks of a request are done before the next request comes, but for RateLimit.Race.
--
-- Not modelled: the cancellation of a task or a kill of its process, the JSON text of a reply,
-- which route a path is given to, the configuration of the logging, and the insides of SQLAlchemy,
-- Alembic, Sentry and the client of Redis, which the source only calls.
mod Base
pub mod Text
pub mod Enums
pub mod Models
pub mod Json
pub mod Fetch
pub mod Parse
pub mod Migration
pub mod Settings
pub mod Wiring
pub mod Normalize
pub mod Ingest
pub mod Run
pub mod Timestamps
pub mod Watchdog
pub mod Export
pub mod Publish
pub mod RateLimit
pub mod Api
pub mod Routes
