-- ===== src/Lib.antt =====
-- Virtual Me is a container with a desktop, an agent and a Go controller (controller/). The
-- controller serves a web console, keeps a queue of jobs in Valkey, runs the agent on them one at a
-- time, and sends notifications to operators. This library models parts of the controller.
--
-- Text models the functions of Go's package strings that these parts call, over lists of code points;
-- Clock models time.Time in a location whose offset from UTC does not change; Decimal models strconv's
-- Itoa, FormatInt, Atoi and ParseInt with base 10 and 64 bits, over bytes. Prelude has the helpers.
--
-- Jobs is controller/internal/jobs. Jobs/Selector models selector.go: Parse, Matches, BucketWindow and
-- ActiveBuckets, under their names in snake case. Jobs/Envelope has the durable records of manager.go
-- and their defaults. Jobs/Store is the interface to the Valkey service, which is not in the
-- repository: a Service answers each command with its documented reply and effect, or fails, and then
-- the effect may have been taken all the same. Jobs/Exec is the monad of methods that change an object
-- and may return an error, with a rule for what holds after a run. Jobs/Manager and its modules Worker
-- and Control model the methods of Manager as actions on a World, which holds the service's state, the
-- clock, the running job and the frames that were broadcast. runOne is two actions, begin_run and
-- end_run, since other methods run between them. Rules, Finish, Retry and Acquire prove what the
-- actions do to the lists of the service. The shortening of payloads in broadcast frames, websocket
-- requests, EnqueueTelegram, timers and goroutines are not modelled.
--
-- Notifications is controller/internal/notifications. Ulid models the identifiers of notifications.go
-- (validULID, encodeULID, ulidGenerator.next over the readings of the clock), Sanitize its sanitizeText (Sanitize/Words compares it with Fields and Join),
-- Detail its sanitizeDetail, Validate its registry of types and validateCreate, and service.go's
-- validateExact; Result has their errors. How long a JSON text is that json.Marshal writes is a
-- parameter, size_of. Store models the four Lua scripts of service.go as functions of the list and the
-- two hashes that they share, since a script runs alone. Snapshot models snapshotLocked, marshalState,
-- handlePage and handleDetail, behind the decoding of the request; the length of a page's frame is a
-- parameter, page_size, and the loop that shortens a frame has as many rounds as the page has summaries,
-- of which each round takes one away. Lifecycle models lifecycle.go as actions on a World: the marker
-- file, the database, the clock, the results of ids.next still to come, and a fate for each write of the
-- file and each call of Valkey, which may fail with or without its effect. Evidence has the marker and
-- its validation, Start has Startup and the recoveries, Stop has PlanConfigRestart and Shutdown; Runs is
-- the rule for what holds after an action, Persist has what persistExact leaves, and the modules Crash
-- and Quiet use them. Service models Create, handleRead and handleReadAll on the same World, with the
-- frames that they send, and its modules Creation, Replies and All are about these. Times are natural
-- numbers of milliseconds, so a marker with a negative time is not represented. The broadcast of
-- createExact, the texts of error frames, the choice of a handler by the type in the JSON, and the steps
-- that write and rename the temporary file one by one are not modelled.
--
-- Telegram is controller/internal/telegram; Chunk models chunk.go, ChunkText with preferredBoundary, over
-- code points. A round of its loop takes at least one rune, so the length of the text is fuel enough. Users
-- models userlist.go, whose store may fail, and AuthorizeSender of service.go; sort.Slice is an insertion
-- sort here, and how it orders equal keys is not fixed in Go. Users/Refused has which identifiers are taken.
--
-- Valkey is controller/internal/valkey/valkey.go, over bytes. Reply models the request that do writes and
-- parseReply; each call and each item takes a round, and one more round than there are bytes is given.
-- Reply/Wire has the replies as a server writes them, Reply/Total the bound on the rounds. Client models
-- the commands; the connection, with its deadline, is a parameter, exchange, which gives the bytes that
-- come back for the bytes of a request. Which sizes make can allocate is a parameter,
-- memory: for the others it panics, and so does the action here. Client/Answers is about servers that keep
-- the protocol.
--
-- Socket is controller/internal/ws/ws.go. Frame models writeFrame, readLength and the part of ReadLoop
-- that reads a frame, Loop the rest of ReadLoop over the bytes that a client has sent; one more round than
-- there are bytes is given, and whether the write of a pong succeeds is a parameter. Hub models the
-- registry as a record and its steps as functions; whether a write succeeds is a parameter again, and the
-- hook onDisconnect is a list of its calls. Upgrade, the hooks' setters and interleavings inside one
-- broadcast are not modelled.
--
-- Projects is controller/internal/projects/projects.go. Records has the project and its storage in Valkey,
-- whose calls may fail before or after their effect; Edit models create, update and delete, Schedule
-- Source, and Execution Execute, in two parts, before and after the task runner, which is not modelled.
-- How a day is formatted, strings.ToLower in the order of the
-- list, the new identifiers and the JSON bodies are parameters. Invariant is about all
-- the methods that write a project. The frames to consoles and the choice of a request are not modelled.
--
-- Agent is controller/internal/agent; Budget models parts of budget.go, with truncatePromptText of
-- agent.go, over bytes: the sizes, compactOlderToolText, dropOldestToolRound and the first loop of
-- preparePrompt. The estimate of a prompt's tokens is a parameter, since it is a calculation with
-- floating-point numbers and JSON. Each round of the loop takes a message away at least, so the number
-- of messages is fuel enough. Compact and Compact/Starts are about compactOlderToolText.
pub mod Prelude
pub mod Text
pub mod Decimal
pub mod Clock
pub mod Jobs
pub mod Notifications
pub mod Telegram
pub mod Valkey
pub mod Socket
pub mod Projects
pub mod Agent
