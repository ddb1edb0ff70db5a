-- ===== src/Lib.antt =====
-- ticketbutler-proxy: a service that fetches an event's orders from TicketButler, aggregates them,
-- keeps the result as a snapshot, and serves the snapshot to Google Apps Script.
--
-- Parts, and how they interact:
--   * Ticketbutler models internal/ticketbutler. Types has the payload's records (types.go) with
--     Answer.FirstChoice, Ticket.Answers, Ticket.AnswerFor and the JSON forms of Amount. Tags has
--     the tags of the structs: a table of fields for each, which writes and reads its JSON; the
--     modules below it read back what was written. Client has FetchOrders (client.go): `fetch_from`
--     is the retry loop, `fetch_once` one attempt, `read_file` the file that replaces the API. A
--     fetch gives its result with the list of what it did, requests and sleeps, in a world that
--     stands for net/http, os, encoding/json, the context and the clock. Client/Clock has sleepFor,
--     and what it is for a world to run by a clock; Client/InTime is about when a fetch is over.
--   * Aggregate models internal/aggregate. Sizes is sizes.go (SizeCounts.Add and Total,
--     NormalizeSize); Summary is summary.go (Summarise: `count_order` and `count_ticket` are the
--     bodies of its two loops, `split_merch` is splitMerch); Sponsors is sponsors.go. Summary/Lines
--     reads the same numbers off the payload without a loop over a state: a list of the tickets,
--     then a filter. Summary/Groups, Merch, Totals and Shares compare the two, Summary/Cuts and Names
--     read splitMerch, and Summary/Reordered permutes the orders. Tags has the tags of its structs.
--   * Legacy models testdata/parity/legacy.js, the Apps Script that the aggregation is a port of:
--     the loop over the tickets, and in Sponsors that over the sponsors. Runtime has what the
--     script uses of JavaScript, Amounts the payload of the script as the service decodes it. Parity
--     and Sponsors/Parity compare the script with Aggregate; Sizes, Objects, Names and Answers do so
--     for its parts.
--   * Store models internal/store: the interface Store with the contract IsStore, in memory
--     (memory.go) and in Cloud Storage (gcs.go), over a service whose documented behaviour is
--     IsCloud. Memory/Slices has the slices that the store in memory and its callers share, on a
--     heap.
--   * Snapshot models internal/snapshot. Snapshot is snapshot.go (Build, Age, Stale, Encode,
--     Decode); Tags has the tags of a snapshot and the codec that they make, Tags/Restore reads
--     back what it writes, Tags/Stable writes that again; Refresher is refresher.go (Refresh,
--     Current, Warm) as functions on the cached snapshot and the state behind the store; Goroutines
--     has the same two functions cut into the steps of any number of goroutines that share the
--     cache, the store and refreshMu.
--   * Httpapi models internal/httpapi. Auth is auth.go; Reply is what the handlers write; Server is
--     handlers.go, with the routes of Handler in server.go. A request takes the state of the
--     refresher to a reply and a new state. Tags has the JSON of the bodies, Log the line that
--     logRequests writes; Server/Restarted compares processes before and after a restart, and
--     Server/Upstream is about the failed fetches of the client.
--   * Config models internal/config/config.go: Load over an environment, with its checks. Values
--     has the parsers of single settings.
--   * Main models cmd/tbproxy/main.go: build, refreshOnce, verify and verifyOptions, and serve up
--     to its first request, with what one process leaves to the next (Restart, and Stored with the
--     JSON of the tags). Serving is the rest of serve: its http.Server, and its two goroutines from
--     the start to the end, with what net/http, the system and the clients do as events;
--     Serving/Deadline compares the server's timeouts with the time that a fetch takes. Command is
--     main itself, from the arguments to the exit code; Command/ExitCodes and Command/Pages read
--     off what a refresh leaves to the service.
--   * Json has what the code uses of encoding/json: Value is a JSON value, Kind how a Go type
--     stands in JSON, Struct a struct by its tags, Map a map with string keys, Number the integers,
--     and Postfix a text form to run the code on.
--   * Errors has Go's error values with errors.As and errors.Is, Text the functions of the packages
--     strings and unicode that the code calls, Dict its maps with string keys, Int the integers
--     with the 64-bit wrap-around, Float what the code does with float64, and Common what all files
--     share.
--
-- Parameters, for code that is not in the repository: Float (arithmetic, comparison and the texts
-- of float64; IsFloat has what strconv documents of the texts, which Float/Milli meets), CaseTable
-- (unicode.ToLower, with laws that Text/Ascii meets), Js (functions of String.prototype, and the
-- names that an object inherits; IsJs has what both languages document of texts that they read
-- alike), Numbers (parseFloat, and `1 + v` on a value of the payload; IsNumbers has what both
-- languages document of decimal numbers), World, Cloud, Codec (what Encode and Decode use of
-- encoding/json and compress/gzip; Snapshot/Tags makes one from Wire, the bytes of a JSON value and
-- gzip, and TimeFormat, the text of an instant), SHA-256, time.ParseDuration and the environment.
-- Where a theorem needs a law of one of them, the law is a hypothesis.
--
-- Bounds and representation: a text is the list of its code points, which orders as the UTF-8 bytes
-- do; lengths in bytes are counted by `byte_length`. A counter is a natural number: no payload
-- reaches 2^63 tickets. An instant is a number of nanoseconds; the difference of two saturates at
-- 64 bits as Time.Sub does; in Client/Clock a timer fires at the instant it is due, and a cancelled
-- request ends at once; the shift of the backoff wraps at 64 bits. A nil slice is the empty list,
-- written as [], which is read back alike; the sponsors, nil just when there are none, are written
-- as null then. An object of JSON holds each key of a struct or of a map once. sort.Slice is an
-- insertion sort; Sponsors/Collect compares its result with that of any other sort. The retry loop
-- recurs on the number of attempts that are left, so it needs no fuel; `decimal` recurs on its
-- number plus one, which is more than the number's digits.
--
-- Not modelled: logging but for the line of a request; the redirects by which ServeMux cleans a
-- path; appsscript and deploy, which are in other languages; the clocks and sleeps that the tests
-- of the code put in, in whose place the model has its world. What the package flag reads, and what
-- the server does to the snapshots between its start and its end, are parameters of Main/Command.
-- The script of Legacy reads the payload as Ticketbutler/Types has it, but with its prices and VAT
-- rates as they stand in the JSON.
pub mod Common
pub mod Int
pub mod Text
pub mod Dict
pub mod Float
pub mod Errors
pub mod Json
pub mod Ticketbutler
pub mod Aggregate
pub mod Store
pub mod Snapshot
pub mod Httpapi
pub mod Config
pub mod Main
pub mod Legacy
