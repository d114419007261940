-- ===== src/Lib.antt =====
-- takuhai: a service that turns the posts of torrent indexes into a queue of releases to be
-- matched. Crawlers (pkg/crawl) walk the pages of a source, newest post first, and answer with raw
-- posts and a cursor. POST /ingest (internal/rest/ingest.go) normalizes the magnet of each post to
-- an infohash (internal/infohash) and hands it to the store (internal/store/postgres/store.go),
-- which keeps one release per infohash with its evidence. A matcher claims releases under a lease
-- and a token, and submits what it found; readers list the matched releases by cursors
-- (internal/cursor).
--
-- The files:
--   Base, Errors     shared types, Boolean tests, lists, bytes, 64-bit words; the sentinel errors.
--   Stdlib           what the program uses of Go's strings, strconv, time, regexp, hex and base32.
--   Infohash         internal/infohash/infohash.go: normalize_infohash is NormalizeInfohash.
--   Crawl.Cursor     pkg/crawl/crawl.go, ParseCursor and FormatCursor.
--   Crawl.Walk       pkg/crawl/crawl.go: crawl is Crawl; turn is one round of its loop over the
--                    pages, take_rows the loop over the rows of a page.
--   Crawl.Lookback   pkg/crawl/duration.go: parse_lookback is ParseLookback.
--   Crawl.Server     pkg/crawl/server.go: serve_http is ServeHTTP, fetch_page FetchPage.
--   Command          what the commands of the crawlers share (sources/dmhy/cmd/takuhai-dmhy/main.go).
--   Dmhy             sources/dmhy: the page cache (cache.go), the parser of an archive page
--                    (html.go, its patterns in Dmhy.Patterns, and parse.go), and the crawler that
--                    is served (server.go). Dmhy.Command is the command line of takuhai-dmhy, and
--                    Dmhy.Jsonl its command parse, which writes the posts of saved pages.
--   Nyaa             sources/nyaa: parse_listing_page is ParseListingPage; Nyaa.Server is server.go,
--                    and Nyaa.Command the command line of takuhai-nyaa.
--   Rows             the cut of a page into rows, which both parsers share.
--   Cursor.Ref       internal/cursor/cursor.go, ValidateRef.
--   Cursor.Token     internal/cursor/cursor.go, Encode and Decode.
--   Store            the tables; Store.Ingest, Store.Claim, Store.Submit, Store.Stats, Store.Query
--                    and Store.Listing are the methods of internal/store/postgres/store.go, as
--                    functions from tables to tables and a result. Store.Invariant and Store.Reach
--                    hold the invariant and the runs. Store.Lifecycle is the queue as a matcher
--                    sees it, one entry for each infohash, with the moves that an entry may make.
--   Dispatch         internal/dispatch/dispatch.go: the typed operations and WireCode, and in
--                    Dispatch.Json the entry points that take and give JSON.
--   Rest             internal/rest: the endpoints, up to the status of the answer. Rest.Metered holds
--                    what they record.
--   Metrics          internal/metrics/metrics.go: what a call records, the gauges of a scrape, and
--                    the path label of a request (Metrics.Routes).
--   Mcp              internal/mcp: the three tools over the dispatcher.
--   Service          cmd/takuhai/main.go: the routes and, in Service.Run, the process from its flags
--                    to its end, with internal/health/health.go.
--   RawPost          pkg/rawpost/rawpost.go.
--   Config           internal/config/config.go: validate is Validate.
--
-- How the code is read. Text is a list of bytes; upper and lower case are those of ASCII. int and
-- int64 are bit patterns below 2 ^ 64, and arithmetic that can wrap does. An instant is a number
-- of nanoseconds since the start of the year 0, which the database keeps without rounding. A
-- float64 is its bit pattern, since it is only copied. An error is its sentinel, without its text.
-- Each method of the store is one transaction: which of its database calls fail is an argument,
-- and a transaction that does not commit leaves the tables as they were. Rows that another
-- transaction holds under FOR UPDATE SKIP LOCKED are a predicate. Text is sorted by bytes. Gaps in
-- serial ids are not modelled. A source's pages are a function of the page number during a crawl,
-- and over all crawls of a run that follows next_cursor, which reads the clock once.
-- The loop over the pages runs on fuel, page_size * (threshold + 1) + threshold + 2 rounds, which
-- is enough because a page with rows that does not end the crawl adds a post, and fewer than
-- threshold empty pages stand in a row. The loop over the terms of a Go duration has fuel for each
-- byte, and the search for all matches of a pattern for each byte of the text; a term and a match
-- of the pattern in use take at least one.
--
-- A pattern of package regexp is a sequence of pieces, matched by bytes as a backtracking search
-- does; a word boundary stands as what it asks of the characters on its two sides, and letters in
-- either case are those of ASCII. A Nyaa timestamp is not wrapped where the seconds of time.Time
-- would be. The cache of pages is a map from keys; a call of it reads the clock twice, and its log
-- lists the stores in the order in which they took the lock. A DMHY date in the first hours of the
-- year 0, which its zone puts before that year, is taken to be the start of the year.
--
-- JSON, base64 and RFC3339Nano in the list cursors are one parameter, a Codec, of which the
-- theorems that need it assume that the text at hand is read back. Two results of floating point
-- are parameters: the fraction of a Go duration, and the bytes that a size text stands for; and so
-- are html.UnescapeString, strconv.ParseFloat and package net/url. Of package flag the model has
-- what it finds on a command line. The limiter, the HTTP client, the files, the output of the
-- command parse and the encoders of answers are functions of their input.
--
-- The metrics are counters by the list of what was added to them, and histograms by what they
-- observed; durations are left out. A route map is a list in the order of its iteration, and a mux
-- has the pattern that net/http documents for a path in clean form. The process of the service is
-- the list of its steps, on what migrations, the pool, the listener and the end of the server give.
-- Not modelled: the JSON entry points of the dispatcher, which the service does not call, the SQL
-- of the migrations, the registration and the exposition of metrics, logs and message texts, the
-- texts that tools are advertised with and the SDK that calls them, and the harness of the tests.
pub mod Base
pub mod Errors
pub mod Stdlib
pub mod Infohash
pub mod RawPost
pub mod Rows
pub mod Crawl
pub mod Command
pub mod Dmhy
pub mod Nyaa
pub mod Cursor
pub mod Store
pub mod Dispatch
pub mod Rest
pub mod Config
pub mod Metrics
pub mod Service
pub mod Mcp
