-- ===== src/Lib.antt =====
-- oh-my-lan: a control plane that gives devices tunnels through one server, modelled from its Go code.
--
-- A device enrolls with a one-time token, publishes services under public ports, and forwards local
-- ports to services of others; an administrator manages all of it. The server keeps its tables in
-- SQLite and the tunnels in a chisel server; a daemon on each device asks what to run, and runs it.
--
-- The parts and their files:
--   Exec and its children: code that writes a state and returns early, the rules for its invariants
--     (Keeps), for what a success leaves (Establishes, Triple) and for what a failure leaves (Undoes).
--   Prelude, Text, Time: tables as lists of rows, Go's string functions, and instants. An instant is
--     a number of nanoseconds; `Time.text_lt` is the order of the RFC3339Nano texts that SQL compares.
--   Store and its children (internal/store): one list of rows for each table, one function for each
--     method of `Store`, with the constraints of the migrations written into the statements.
--     `Store.faults` is the schedule of failures of the driver. Store/Schema is the invariant of the
--     tables (Operations and Consuming for what requests and tasks call, Commands for the rest), Store/Keeps the interface that the clients of the store use.
--   Server (internal/server/server.go, internal/tunnel/server.go): the state that the requests
--     share: tables, the mirror of chisel's user index, login failures, the clock, random texts to
--     come, and the outcomes of outside calls to come.
--   Api (internal/server/api/api.go): ports, the rate limit of logins, addresses, keys and paths.
--   Enroll (internal/enroll/enroll.go, internal/auth/secret.go): tokens and new devices.
--   Http (internal/proto/dto.go): requests, responses and their data.
--   Device, Admin, Auth (internal/server/device, internal/server/admin, internal/server/auth): one
--     function for each handler, composed of the store's operations as the code is.
--   Lifecycle (internal/server/lifecycle.go, bark.go, prober/prober.go): a round of each task.
--   Files: the file system, as an interface with its laws, for what reads and writes files.
--   Server/KeySeed (internal/server/keyseed.go): the seed of chisel's key.
--   Migrations (internal/store/migrations.go): the scripts that make the tables, over any meaning of
--     the scripts.
--   Config (internal/config/server.go, client.go, log.go): what is loaded and checked.
--   Accounts (internal/server/sshacct/sshacct.go): the ssh accounts, over files and commands. The
--     handlers take a whole call of it as one command that may fail (`Server.outside`).
--   Router (internal/server/router.go): requests, and the events of a server's life.
--   Tunnel (internal/tunnel/spec.go, client.go): what chisel is told.
--   Client and its children (internal/client/api.go, state.go, sshkey.go): the calls of the control
--     plane, the device's state and its key pair.
--   Daemon (internal/client/daemon.go): the client's loop, its backoff and its reload watch; Daemon/Once
--     is one round. Daemon/Revoked joins the client to the server's handlers.
--   Logging (internal/logging, internal/server/admin/logs.go): the log buffer, the handler that fills
--     it, and the route that reads it.
--   Passwords (internal/auth/password.go): password hashes as texts.
--   Command (cmd/omlctl/main.go, kill_unix.go): which processes get a signal; Command/Server
--     (cmd/omlserver/main.go): the commands on the tables.
--   Examples: the theorems at concrete inputs, with files in memory and commands that are functions.
--
-- Loops over rows are structural recursion. The search for a port has as many rounds as the pool has
-- ports, so it ends with the pool. A command of an account is tried as often as is left of five tries.
-- A run of the daemon is observed for a list of rounds. Nothing
-- else has fuel. A request and a round of a task run as a whole; `Router.live` is any sequence of
-- them, with restarts, the passage of time and new failures in between.
--
-- Taken as parameters: SHA-256 and the comparison of passwords (`Env`), `net/url.Parse` and the
-- dialing of ports (`Outside`), random bytes (`entropy`), chisel and commands of the operating
-- system (`outcomes`), the order of `sort.Strings`, the file system (`Files.FileSystem`), the transport
-- of the client (`Client.Transport`; in Daemon/Revoked it is the server for the address of the
-- bootstrap, and anything else for other requests), JSON and YAML, key generation, the meaning of SQL scripts, argon2id
-- and base64. Not modelled: HTTP itself and the match of paths, the flags and the output of the
-- command line tools, the web UI and the desktop app.
pub mod Prelude
pub mod Exec
pub mod Logging
pub mod Time
pub mod Text
pub mod Store
pub mod Server
pub mod Api
pub mod Enroll
pub mod Http
pub mod Device
pub mod Admin
pub mod Auth
pub mod Lifecycle
pub mod Tunnel
pub mod Daemon
pub mod Router
pub mod Files
pub mod Config
pub mod Client
pub mod Accounts
pub mod Passwords
pub mod Command
pub mod Migrations
pub mod Examples
