-- ===== src/Lib.antt =====
-- apod is a daemon that hosts web sites in containers. It listens on a local socket and on TCP; a
-- request passes a rate limiter, the authentication, the policy for scoped tokens and, on some routes,
-- a check for administrators, before a handler calls the engine, which keeps users, sessions and tokens
-- in SQLite and containers in Docker. This library models that core: who may do what, what the engine's
-- operations on accounts do to the database, the life of a site from the claim of its domain to its removal,
-- how a worker is scaled under the lock of its site, and what the subscribers of an operation's progress see.
--
-- Base: Go's strings and errors, lists as tables, tests and results. Base/Effects has the calls that change
-- a state and may fail, with do blocks and the rules for reasoning about them.
-- Db (internal/db/users.go, sessions.go, tokens.go): the tables as lists of rows, one function per
-- statement. An environment says which statements fail, what the clock shows and what rand.Read yields,
-- so every error path of the callers can be taken. Several writes are not one transaction, as in the code.
-- Totp (internal/totp/totp.go): one-time passwords, with HMAC-SHA-1 and base32 as parameters.
-- Auth (internal/engine): operations as functions from the state of the engine to the new state and a
-- result. Auth/Throttle is loginthrottle.go, Auth/SecondFactor is totp.go with the secret values of
-- crypt.go, Auth/Password is auth.go, Auth/Tokens is token.go, Auth/Accounts is user.go.
-- Access (internal/server): middlewares from a context to a status or a context. Access/Identity is
-- AuthMiddleware, Access/Scope is ability.go, Access/RateLimit is ratelimit.go, Access/Streams the
-- limits on event streams in routes.go.
-- Process (internal/engine/process.go, safety.go, internal/db/process_scaling.go): the replicas of a
-- worker, with the containers of the Docker daemon as a list and every call able to fail, the lock of a
-- site, and ScaleProcess, which takes the lock, reconciles and then stores the count.
-- Sites (internal/engine/engine.go, domain.go, networks.go, user.go, validate.go): the engine's state is the
-- locks, and the tables of Db/Sites (internal/db/sites.go, domains.go, networks.go), the containers and their
-- endpoints on shared networks, which an operation changes. Sites/Creation is CreateSite with the rollback of
-- a creation that fails, Sites/Destruction DestroySite, Sites/Power StartSite, StopSite and RestartSite,
-- Sites/Aliases AddDomain and RemoveDomain, Sites/Networks networks.go and Sites/Transfer TransferSite;
-- Sites/Domains and Sites/Params check names and parameters. A world says which statements and which calls of
-- Docker fail and what the provisioning answers.
-- Compose (internal/engine/compose.go): what a tenant's compose file may ask for. Compose/Sanitizing is the
-- rewriting of its lines; the checks of the decoded services are in Compose, with filepath.Clean. The YAML
-- library is a parameter: a service is given as its keys and its decoded settings.
-- Update (internal/engine/update.go) compares versions, Egress (internal/engine/uptime.go) tells public addresses,
-- Backups (internal/engine/backup.go) finds the file of a backup.
-- Progress (internal/engine/progress.go): the hub that streams the progress of operations, with its
-- numbered runs, bounded replay buffers, subscribers and the timers that free a buffer.
-- Quota (internal/engine/quota.go): the choice of the file system on which a disk quota is set.
-- Tests: runs on a small database and the instances of the theorems below.
--
-- Instants are nanoseconds since 1970 as natural numbers; the 64-bit wrap-around of TOTP counters and of
-- the lifetime of a scoped token, which a request gives in days, is written out. Other counters and row
-- numbers are plain natural numbers: they grow by one for a stored row, an event or a round. Loops
-- are structural recursion on lists or on the number of rounds; the one unbounded loop, which removes
-- the extra replicas, has as fuel the number of containers and one more, since each round that goes on
-- removes a container. Strings are sequences of code points, which
-- are their bytes where they are ASCII. A mutex makes each method one step. The theorems on the limiter, the
-- login throttle and the shared networks are about every sequence of such steps, those on the progress hub
-- about the events of one run. SHA-256, bcrypt and the AES-GCM box are parameters, of
-- which nothing is assumed. Not modelled: SQL text, the file system, what is provisioned for a site,
-- the configuration of containers and of the proxy, backups, monitoring and the command line.
pub mod Base
pub mod Db
pub mod Totp
pub mod Auth
pub mod Access
pub mod Process
pub mod Progress
pub mod Quota
pub mod Sites
pub mod Compose
pub mod Update
pub mod Egress
pub mod Backups
pub mod Tests
