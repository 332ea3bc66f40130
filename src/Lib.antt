-- ===== src/Lib.antt =====
-- Verification library of the backend of the Conductor data platform (backend/app, Python).
--
-- The backend keeps projects, members and lifecycle jobs in PostgreSQL. Requests of the HTTP API enqueue
-- lifecycle jobs; workers claim them under a lease, run them and settle them; the guards of the API decide
-- who may do what. A step of the program is a function on the tables:
--
--   Models      backend/app/models: one record for each table, and `Db`, all of them
--   Lifecycle   backend/app/services/lifecycle_errors.py and backend/app/services/project_lifecycle.py: the errors and their
--               classes, the retry delay, the transitions of a project, the names of its runtime
--   Outcome     a coroutine that commits or rolls back: a value or an exception, beside the tables
--   Queue       backend/app/services/lifecycle_queue.py: claim_next_job, heartbeat_job,
--               complete_job, retry_or_fail_job, one function each; Queue.Schedule has the calls of any number of
--               workers in any order
--   Http        handlers and dependencies: an answer or an HTTPException
--   Access      backend/app/auth/permissions.py, backend/app/services/project_access.py, backend/app/services/airflow_role.py,
--               backend/app/services/project_airflow_context.py
--   Reauth      backend/app/services/reauth.py: the rate limits, the checks and the grants
--   Worker      backend/app/workers/lifecycle.py and the registry of backend/app/services/lifecycle_runner.py: process_one_job and
--               run_worker, with the moments of a run in their order
--   Provisioner backend/app/services/compose_provisioner.py: the saga `provision`, with the answers of Docker, the
--               database manager and Airflow, and what other processes commit, as arguments
--   Projects    the endpoints of backend/app/routers/projects.py on members, environments, settings and the Git
--               configuration
--   Operations  backend/app/services/project_operations.py, the retry endpoint of backend/app/routers/projects.py and the deletion
--               endpoint of backend/app/routers/admin.py; what is read back of a row after a rollback is read from
--               the tables, so that it cannot fail; Operations.Interleaved has requests and workers in any order
--   Database    backend/app/services/project_database.py: the database manager over a PostgreSQL that is a parameter
--               (Server), with the commits of other sessions between two queries; the transaction of ensure_role
--               is one query
--   Artifacts   backend/app/services/runtime_artifacts.py: the validation of a spec, the environment file and the
--               publication of a generation on a file system of entries and modes
--   Crypto      backend/app/services/crypto.py: stored credentials and the rotation of their keys
--   Sessions    backend/app/auth/jwt.py, backend/app/auth/deps.py and backend/app/routers/auth.py: register, login,
--               refresh and me, the current user and the source address of a request
--   Admin       backend/app/routers/admin.py: the requests on users, roles and permissions
--   Prelude     shared tests, list and text helpers
--
-- Each transaction runs as one step. Where another transaction may commit between the reads of a request
-- and its flush, it is an argument of the request (`others`), and the rows that other transactions have
-- locked are an argument of a claim. Times are natural numbers of one unit. The JWT library, ipaddress,
-- password hashes, SHA-256, Fernet and the redaction of messages are function arguments, and the random values of
-- a request are a record that is passed in. Unique indexes are tested where a row is inserted; of the
-- foreign keys only that of a membership to its role is.
--
-- The only loop without a bound in its text is that of claim_next_job. It runs on fuel, one round more
-- than there are jobs, which is enough since each further round ends a job that was running.
--
-- Not modelled here: the Docker calls of the provisioner, the redaction of secrets, the lists of the API
-- that an ORDER BY sorts, the Git endpoints, which run git, the Airflow and code-server proxies, which are
-- network I/O, the dashboard, the migrations and the deployment files.
pub mod Prelude
pub mod Models
pub mod Lifecycle
pub mod Outcome
pub mod Queue
pub mod Worker
pub mod Provisioner
pub mod Http
pub mod Access
pub mod Reauth
pub mod Operations
pub mod Projects
pub mod Database
pub mod Artifacts
pub mod Crypto
pub mod Sessions
pub mod Admin
