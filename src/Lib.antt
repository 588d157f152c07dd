-- ===== src/Lib.antt =====
-- The Mola engine: the control plane that makes, boots and removes Omarchy machines on one host.
--
-- The engine is a node process. It remembers machines in one file, asks a Python runner to run
-- QEMU, and is spoken to in three ways: by an operator over the public API, by a cloud control
-- plane over the host API, and by the daemons inside the guests. Paths below are from the
-- repository's root.
--
-- Files and what they model:
-- Prelude: Boolean tests, association lists for objects and Maps, lists and integers.
-- Json, Json/Fingerprint: request bodies, and the fingerprints `canonical` and `stable`.
-- Exec, Exec/Keeps: requests that mutate and may throw, and relations that they keep.
-- Text, Text/Split: trim, slice, startsWith, split, join and the patterns of identifiers.
-- Records, Registry: src/state.js. `durable` is the file, `records` the memory; `flush` copies.
-- Api: src/api.js. Guest: src/guest.js with its routes in src/server.js.
-- Tickets: src/desktop.js and src/ssh.js, the tickets and the phases of a connection.
-- Engine: the state of the process, and the runtime, clock and random source as a record `Host` of
--     functions on a world of any type. Every await also runs the guests' requests that arrive then.
-- Runtime: `settle` of src/runtime.js.
-- Description, Request, Journal, Lifecycle: `hostDescription`, `describe` and `mutate` of
--     src/host-api.js: the checks of the request, the journal, and the command itself cut at its phases
--     (`check_incarnation`, `enter`, `proceed`).
-- Storage: src/host-storage.js, `storageOperation` over the same journal.
-- Server: the public routes of src/server.js that make, start, stop and delete a machine,
--     and the adoption at start.
-- Admission: `hostToken` and `validateDesktop` of src/host-api.js, `imageStatus` of src/image.js.
-- Engine/Upholds, Runtime/Upholds, Orderly: invariants of the state of the process. `IsOrderly` says of
--     every journal, in memory and on disk, what `admit`, `enter` and `conclude` rely on;
--     Orderly/Reach composes commands, storage operations, descriptions and restarts into histories.
-- Routes: the dispatch of `createServer` (src/server.js) with its guards, its errors and the limit on
--     bodies. Routes/Host: where `HostApi.handle` (src/host-api.js) sends a request.
-- Desktops: the desktop and actions branches of `HostApi.handle`.
-- Preflight: src/preflight.js. Frames: src/mcp/stdio.js. Client: src/mcp/engine.js.
-- Mcp: src/mcp/tools.js and src/mcp/index.js. A tool is a program: its operations on the client, what
--     it makes of each answer, and the result. Mcp/Methods runs one and answers the request.
-- Image: src/image.js. The sparse writer, beside the plain file; Image/Download fetches an artifact and
--     puts an image together in its staging directory; Image/Installed says what each leaves.
-- Uninstall: src/uninstall.js. The survey; Uninstall/Steps records what is signalled, asked and removed,
--     and each look at ps.
-- Tests: runs on small inputs.
--
-- Numbers: times are milliseconds, sizes and generations natural numbers; `Number.isSafeInteger` is
-- kept as a bound where the code tests it. An integer of a body may be negative (ℤ).
--
-- Fuel: the loop of `settle` makes 40 rounds, as the code does. The loop over the lines of a buffer
-- is given one round more than the buffer has characters, and each round takes a newline off it.
-- Waiting for a machine is given one round more than the timeout has milliseconds, where every
-- pause moves the clock on. The sparse writer is given as many rounds as there are bytes pending, and
-- each takes a block off them. The loops over attempts, and over the ten seconds of an uninstallation,
-- make the rounds that the code makes.
--
-- Not modelled: processes, sockets and HTTP, the bytes of a transport once it is open, the start of the
-- runtime's child, `handleSsh`, the lock of `HostApi`, the texts
-- that the MCP tools show a model, log lines, and the decisions of bin/mola.js. A file of an image
-- is what it reads as, so that a hole and written zeroes are the same. A restart stands between events
-- of a history: what a crash inside a command leaves is the file as it is at each call of the runtime.
-- A request of the host API holds its machine's lock, so only guests' requests interleave with it here;
-- two public requests for one machine at once are not run against each other. Objects are looked up by
-- their own keys: an id that names a member of Object.prototype is out of the model.
-- The id in the body of a create may be any value where the host API sends the request; past that point
-- it is a text. The name of an image's artifact is taken to be a file name without a path.
pub mod Prelude
pub mod Json
pub mod Exec
pub mod Records
pub mod Registry
pub mod Text
pub mod Api
pub mod Guest
pub mod Tickets
pub mod Engine
pub mod Runtime
pub mod Description
pub mod Desktops
pub mod Request
pub mod Journal
pub mod Lifecycle
pub mod Preflight
pub mod Frames
pub mod Server
pub mod Storage
pub mod Client
pub mod Admission
pub mod Mcp
pub mod Image
pub mod Uninstall
pub mod Routes
pub mod Orderly
pub mod Tests
