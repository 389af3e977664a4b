-- ===== src/Lib.antt =====
-- The backend of the VPN router: a service that registers devices, sells access, watches the health
-- of VPN nodes and hands out client configurations. This library models its core and proves what
-- makes the core correct.
--
-- The parts, and the files of the repository that they follow (below backend/app/):
--   Json, Errors            JSON values; what is raised, and code that reads and writes a state
--   Models                  domain/models.py
--   Repository              repositories/memory.py: `Repo` holds the fields of InMemoryRepository
--     Repository.Users      users, devices and subscriptions; domain/receipt_fingerprint.py
--     Repository.Commercial subscriptions that are sold on the site
--     Repository.Nodes      nodes, and the demo nodes that a repository starts with
--     Repository.Events     health events and the log of what administrators do
--   RateLimit               api/rate_limit.py
--   Nodes                   domain/node_scoring.py and domain/node_selection.py
--   Health                  domain/health_checker.py; Health.Worker is services/health_worker.py
--   Config                  domain/config_builder.py; Config.Rules is domain/rules_engine.py and
--                           Config.Validation is domain/config_validation.py
--   NodeConfig              domain/node_config.py
--   Qr                      domain/qr_svg.py: Field (bytes as a field, Reed-Solomon), Codewords,
--                           Matrix (the modules and where they are written), Svg
--   Service                 api/service.py: Payload (what is read from a request), Views (what is
--                           answered), Receipts, Accounts, Sales and Admin (the methods of
--                           ApiService), Authorization (user_id_from_authorization), Subscriptions
--                           (the links that are served), Html (the pages that are served),
--                           Metrics (prometheus_metrics), Wallets (and the table of
--                           domain/coins.py); services/receipt_verifier.py, and the records of
--                           domain/tariffs.py and services/yookassa.py
--   Tokens                  security/tokens.py
--   Links                   domain/vless_parser.py and domain/v2ray_subscription.py
--   Tariffs                 domain/tariffs.py
--   Settings                core/settings.py
--   Rates                   services/exchange_rates.py
--   Pages                   api/pages.py: Style, Landing, Connect and Invoice
--   Server                  api/server.py: the request, the response and its headers; Paths (which
--                           method serves a path), Body (what is read), Handlers (what is answered)
--   Sqlite                  repositories/sqlite.py and backend/migrations/001_initial.sql: the
--                           tables; Tables (the statements on a table with a key), Rows and Options
--                           (objects as rows), Nodes, Users and Events (the methods)
--   YooKassa                services/yookassa.py
--   Prelude                 helpers: lists, texts, dicts, integers, orders, sorting
--   Tests                   concrete inputs
-- A definition has the name of the function, method or class that it models. The HTTP handlers call
-- the methods of Service, these read and write the repository, and the health worker runs beside
-- them on the same repository. Service uses the in-memory repository; Sqlite has the same methods on
-- tables.
--
-- A method that changes the repository is a function from the old one to a result and the new one;
-- what is raised comes back as a value beside the state that was reached. Dicts are association lists
-- in insertion order. The clock, the random identifiers and tokens, what the network and the payment
-- provider answer, SHA-256, HMAC, UTF-8, base64, JSON, urllib.parse, Decimal, http.server
-- (which splits a request into its parts), the texts of dates, and the conversions that Python does
-- to texts and floats are arguments. So is, for Accounts, what issues an access token; Tokens models
-- it. A Decimal may be a NaN, which does not compare, and a division may have no rounded result; either
-- is decimal.InvalidOperation.
--
-- Units and bounds: a datetime is the number of microseconds since datetime.min, at most
-- 315537897599999999; adding days past that, or more than 999999999 days, is OverflowError. The
-- clock is taken to leave room for the 30 days of a subscription. A success rate is a whole number of
-- ten-thousandths, a smoothing factor of hundredths, a score of two-thousandths; the program computes
-- these in binary floats and the model exactly, so the two may differ in the last digit before a
-- rounding. Integers are unbounded, as in Python. Most loops run over a list. The while loops have
-- fuel: `squeeze` of Links.Slug as many rounds as the slug has characters, each of which makes it
-- shorter; `draw_columns` of Qr.Matrix as many as there are columns, and it moves by two; `fill_byte`
-- of Qr.Codewords eight, since it stops at a multiple of eight. A table is the list of its rows in the
-- order in which they were inserted, and keeps the primary keys, the unique tags and the references of
-- the schema; rows with the same time are listed in that order.
--
-- Not modelled: how the SQLite file is opened and older tables get their missing columns;
-- repositories/factory.py, which chooses the repository; what starts the server; urlopen and the
-- socket that a probe opens, whose answers are arguments; a lack of memory, such as for a price with
-- a huge exponent; the command line, the tools and the mobile applications.
pub mod Prelude
pub mod Json
pub mod Errors
pub mod Models
pub mod Repository
pub mod RateLimit
pub mod Nodes
pub mod Health
pub mod Config
pub mod NodeConfig
pub mod Qr
pub mod Service
pub mod Tokens
pub mod Links
pub mod Tariffs
pub mod Settings
pub mod Pages
pub mod Rates
pub mod Server
pub mod Sqlite
pub mod YooKassa
mod Tests
