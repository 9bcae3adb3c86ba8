-- ===== src/Lib.antt =====
-- A model of the backend of a platform for capture-the-flag contests, and what holds of it.
--
-- The backend is a Go program over a PostgreSQL database and a Docker daemon. Players register, read
-- challenges, submit flags and start containers of their own ("instances") for the challenges that
-- need one; the status of the contest opens and closes these requests, rate limits bound them, and a
-- background loop ends the instances whose time is over.
--
-- Files and code. Names are those of the code in snake_case.
-- - Base: Boolean tests, texts as lists of code points, integers, Go's maps, errors, and calls that
--   change a state and may fail (Base/Exec).
-- - Runtime: backend/internal/runtime/types.go. Runtime/World has the tables of the database and
--   `Outside`, the parameter for the clock, the failures of the database and the daemon behind the
--   interface Manager. Runtime/Repository is backend/internal/store/runtime_repository.go, with each
--   statement as a function on the tables and the unique index of
--   backend/migrations/0001_initial_schema.sql. Runtime/Service (StartInstance, GetInstance,
--   RenewInstance, DeleteInstance) and Runtime/Background (SweepExpired, Reconcile) are
--   backend/internal/runtime/service.go. Rules and Checks hold the lemmas on calls that only read;
--   Start and Lifecycle lead each call back to its statement, and History runs of calls to series of
--   statements; Effects, Answers, Replies and Writes say what these are, column by column; Tables, Limits, Ports, Keys and Renewals what holds after every run; Found, Live,
--   Sweep and Swept the lookup after a start, the calls that reply, and a sweep without an error.
-- - Contest: backend/internal/contest/types.go, the statuses and what they open.
-- - Game: backend/internal/game/types.go. Game/Store is backend/internal/store/game_repository.go;
--   Game/Flags, Game/Service and Game/Scoreboard are backend/internal/game/service.go. Submit, Solves,
--   Judge, Ranking and Standings have the lemmas.
-- - RateLimit: the limiter in memory and the fallback of backend/internal/app/rate_limiter.go and
--   enforceRateLimit of backend/internal/app/limiters.go. RateLimit/Redis is the limiter over a
--   connection to Redis, RateLimit/Built the construction of the limiters and their keys, and
--   RateLimit/Submissions backend/internal/app/submission_limiter.go.
-- - Auth: backend/internal/auth/types.go, and backend/internal/auth/jwt.go in Auth/Tokens and
--   Auth/Token. Auth/Users is backend/internal/store/user_repository.go, Auth/Service is service.go and
--   password.go of backend/internal/auth; Logins, Answered and Registered have
--   the lemmas.
-- - Admin: backend/internal/admin/types.go. Admin/World has the tables, the state outside, statements
--   and transactions; Store, Repository and Records are backend/internal/store/admin_repository.go, and
--   Admin/Service is backend/internal/admin/service.go. Rules has the lemmas on calls; Ownership,
--   Authors, Replaced and Ended those on the operations.
-- - Importer: the types of backend/internal/challengeimport/importer.go. Lines, Assign and Parser read a
--   specification, Files has the names of files, Normal is NormalizeSpec, and Tables and Import are
--   ImportSpec. Blanks, NormalMeta, NormalRuntime, Normalized, Kept and Imported have the
--   lemmas.
-- - ChallengeStatus: backend/internal/challengecfg/status.go.
-- - Config: backend/internal/config/config.go.
-- - Server: the middleware, the guards and the handlers of instances and submissions in
--   backend/internal/app/server.go. They call the runtime, game, contest, rate limit and token
--   modules.
--
-- State. A call of the runtime service takes the world (tables and state outside) and returns its
-- value or error with the world after it; what was written before an error stays. The mutex of the
-- service makes each call that writes one step; GetInstance takes no lock and only reads. Every
-- statement of the database may fail with no effect, and every call of the daemon may return
-- anything. The calls in a run are those of the players and of the background loop; an administrator
-- who ends an instance goes past the service and is not among them. In the game, `others` stands for
-- what other requests write between two statements of one.
--
-- Instants in the database. A column of type TIMESTAMPTZ holds microseconds where Go has nanoseconds.
-- `stamp`, a field of the tables of the runtime service, is what such a column gives back of an instant
-- written to it; nothing is assumed of it. The tables of the other parts do not tell the two apart.
--
-- Texts. Lists of code points. to_lower changes the code points whose lower case is an ASCII letter,
-- which is exact for what it is compared with in statuses, kinds and roles; the case of other letters
-- is kept, in user names, addresses and slugs too. The scanner of a specification's lines stops at a
-- line that is too long for it, and which lines are is a parameter.
--
-- Numbers. Keys, ports and counts are natural numbers, and points, instants and durations integers;
-- instants and durations are nanoseconds, and the sums of them are not cut to 64 bits, except in
-- RateLimitWindow, where the product wraps as int64 does. Loops are recursion on lists; the loop over
-- the ports recurses on the number of ports of the range that are left, which reaches its end, and the
-- decimal digits of a number on one more than the number, which is enough as each round divides by ten.
--
-- In the administration and the import a transaction that fails restores the tables that it began with,
-- and keeps only the count of keys given out.
--
-- Not modelled. The Docker client, the opening of the database, the finding and copying of the files of
-- an import and the running of scripts are input and output. HMAC, base64, JSON, bcrypt, the
-- connection to Redis, regular expressions, Unicode's table of case folding, the parsing of URLs and of
-- durations are parameters. The listings of the administration and of the game, the handlers other
-- than those of instances and submissions, logging and metrics are not covered. The text of an error
-- message is left out of a reply.
pub mod Admin
pub mod Auth
pub mod Base
pub mod ChallengeStatus
pub mod Config
pub mod Contest
pub mod Game
pub mod Importer
pub mod RateLimit
pub mod Runtime
pub mod Server
