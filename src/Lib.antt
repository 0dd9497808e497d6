-- ===== src/Lib.antt =====
-- A model of the backend's core logic: the life of a car service in a service centre, payments as
-- their providers report them, customers' cars with their plates and mileages, maintenance
-- recommendations, who gets in (one-time passwords, passwords and tokens), and what stands around
-- them: uploads, statistics, trips, insurance, and the events that a move of a service sends out.
--
-- The parts and their files, with the code that each is about:
-- - Db and Db/Rows: the tables (app/modules/*/models.py) as lists of rows, oldest first. UUIDs are
--   numbers given in order; times are microseconds; prices and mileages are not negative.
-- - Exec: an operation is an action on the tables that may raise, and `request` is the session of
--   app/deps.py, which rolls back when its handler raises. Errors: app/core/errors.py.
-- - Rbac: app/core/rbac.py and the gates on the current user in app/deps.py.
-- - Services: app/modules/services. StateMachine is state_machine.py, Repository is repository.py;
--   Access, Intake, Edit and Transition are the parts of service.py, each function with its name
--   there less a leading underscore. Lists is the lists with their pages and the endpoints of
--   router.py on them. Requests puts the four writes under one session each, in any order;
--   Invariant says what holds between sessions. Below each part, the files Graph, Rules, Timing,
--   Effect, Outcome and Items hold its proofs.
-- - Cars: app/modules/cars. Service is service.py with the forms of schemas.py, Repository is
--   repository.py, Recommendations is recommendations.py; Services calls the repository too.
-- - Centers: app/modules/service_centers; Centers/Profile has its writes. Mechanics:
--   app/modules/mechanics; Mechanics/Service is its service.py.
-- - Redis: the commands that the code calls, as an interface with the documented behaviour of each.
--   RateLimit: app/core/rate_limit.py on it.
-- - Security: app/core/security.py. Bearer: from the Authorization header to the current user
--   (app/deps.py).
-- - Auth: app/modules/auth. Otp is the one-time passwords of service.py on Redis, Otp/Machine
--   their abstract specification for one phone; Otp/Refine relates the two, and Otp/Promise is about
--   runs of tries. Repository is repository.py, Service the rest of service.py, and Routes is
--   router.py: each endpoint on Redis and the tables, where a failure rolls back the tables alone.
-- - Notifications: app/modules/notifications.
-- - Realtime: app/core/events.py and the endpoints of app/modules/services/router.py on one service.
--   Channels is about the names of channels, Audience about who listens, Staff about how an endpoint
--   of the staff ends, and Moves about the endpoint that moves a service. Desk is the other endpoints,
--   and Intakes is about the one that opens a service by VIN or plate.
-- - Users: app/modules/users. Admin: app/modules/admin/router.py. Uploads: app/modules/uploads, whose
--   confirmation writes to Users, Cars and Centers. Stats: app/modules/stats/service.py.
-- - Trips: app/modules/trips/service.py; Trips/Requests puts its writes, and the deletion of a car,
--   under one session each.
--   Insurance: app/modules/insurance/service.py. Both keep their tables in a store that has the
--   database beside them.
-- - Billing: app/modules/billing/service.py. Payme and Click: app/integrations/payme.py and click.py,
--   which look a payment up and report its outcome by `apply_webhook`.
-- - Plate: app/core/plate.py.
-- - Prelude: Boolean tests, texts as lists of code points, and lists as tables, with the groups,
--   orders and pages of SQL. Tests: runs.
--
-- A session reads and writes the tables alone; two sessions do not overlap. A unique column, a
-- foreign key or the length of a column that a write would break is an error of the write, where
-- the forms do not already keep to it; a text that is too long by blanks alone, which PostgreSQL
-- would cut off, counts as too long. Base64, MD5 and the parsers of int and UUID belong to Python's
-- library and are parameters (Config); so are Argon2, JOSE and SHA-256, and what they draw at
-- random, which comes in as an argument; so is, for the edit of a car, whether a row that a session
-- holds shows an update that was executed after it was read. The arithmetic on floats and decimals
-- is a parameter of Trips (Floats) and Insurance (Rates); the signature of the object store,
-- mimetypes, str.lower and the texts of UUIDs are parameters of Uploads (Host), and the texts of
-- UUIDs of Realtime. Every loop is a recursion on its list, so no fuel is needed, but for the
-- digits of a number in a key of the rate limit, where one more than the number itself is enough.
--
-- Not modelled: cookies and HTTP, cursors, the search of centres by distance, push and SMS, workers,
-- the pump between Redis and a WebSocket, the lists of admins, the breakdown of an insurance quote,
-- and the modules that only read and write single rows (reviews, SOS, content, reference data, fuel
-- stations).
pub mod Prelude
pub mod Config
pub mod Errors
pub mod Exec
pub mod Rbac
pub mod Db
pub mod Centers
pub mod Mechanics
pub mod Cars
pub mod Services
pub mod Billing
pub mod Payme
pub mod Click
pub mod Plate
pub mod Admin
pub mod Auth
pub mod Bearer
pub mod Insurance
pub mod Notifications
pub mod RateLimit
pub mod Realtime
pub mod Redis
pub mod Security
pub mod Stats
pub mod Trips
pub mod Uploads
pub mod Users
pub mod Tests
