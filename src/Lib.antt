-- ===== src/Lib.antt =====
-- A model of cdevents-otel-bridge, a service that receives CDEvents over HTTP, keeps the events and
-- the deployments they tell of, answers queries for them, and puts deployment attributes on spans.
--
-- The parts, and the files that model them. Paths are those of the repository.
--
-- internal/cdevents: `Cdevents` has the records and kinds of types.go and `Cdevents.ShortType` its
-- functions; `Cdevents.Fields` and `Cdevents.ArtifactVersion` are fields.go, the second with the
-- regular expression as a matcher that is written out; `Cdevents.Links` is links.go,
-- `Cdevents.Validator` is validator.go, and `Cdevents.Parser` with `Cdevents.Parser.Summary` is
-- parser.go. A function keeps the name that it has in Go, in snake case.
--
-- pkg/models: `Models` has the records, `Models.Json` the values that encoding/json decodes into
-- `any`, and `Models.Decoding` is `Link.UnmarshalJSON` from the fields that json.Unmarshal fills.
--
-- internal/storage: `Storage` is interface.go, the interface as a record of operations over the
-- state of a backend, and `Storage.Memory` is memory.go. Its mutex is held for a whole method, so a
-- method is one function from a state to a result and a state. Its children prove the rules of the
-- keys (`Keys`), the invariant (`Invariant`), reads after writes (`Lookups`), the reads that range
-- over a map (`Listing`) and what is held (`Held`); `Storage.Latest` is about `latestDeployment`.
-- `Storage.Redis` is redis.go over the client library as a record of its commands; `Server` beside
-- its children states what the backend relies on in a server, `Escaping` and `Keys` are about its
-- keys, `Invariant` is what they hold, `Lookups`, `Listing` and `Chains` are the reads, `Scanning`
-- the loops, `Written` says where a deployment comes from, and `Replay` and `Agreement` compare the
-- two backends. `Sample` is a small server and `Codes` an encoder, at which the theorems are
-- applied. `Backend` makes it a storage of the interface.
--
-- internal/correlator: `Correlator.Graph` is graph.go and `Correlator.Chain` is correlator.go, over
-- the storage as two functions, `GetEvent` and `GetEventsByChain` under the context of the call.
--
-- pkg/otelbridge and internal/otel/resolver.go: `Otelbridge.Resolver` is the cached resolver,
-- `Otelbridge.Attributes` and `Otelbridge.Processor` are attributes.go and processor.go, and
-- `Otelbridge` itself has the resolver over the storage, which `Otelbridge.Latest` puts on the
-- in-memory storage. A call of the cached resolver is two steps on the cache, `begin` and `finish`,
-- for the mutex is not held while the inner resolver runs; `Otelbridge.Resolver.Steps` lets the
-- steps of calls interleave in any order. `Otelbridge.Client` is client.go, whose `Bridge` puts the
-- client against the handler of the bridge, and `Stored` both on the Redis backend;
-- `Otelbridge.Options` has the options of the span processor, and `Otelbridge.Tracing` is
-- internal/otel/provider.go.
--
-- internal/api: `Api` is responses.go, and `Api.Ingest` and `Api.Queries` are handlers.go, over any
-- storage. `Api.Stored` puts the handlers, the in-memory storage and the correlator together.
-- `Api.Middleware` is middleware.go, with the chain of server.go around a router that may panic,
-- and `Api.Server` has what else server.go computes.
--
-- internal/config: `Config` is config.go, and its children say which configurations are valid
-- (`Laws`), what the environment overrides (`Overrides`), what `Load` returns (`Loading`) and what
-- a time to live is in 64 bits (`Durations`).
--
-- cmd/bridge: `Command` is main.go, with `run` as the sequence of what it does to its parts;
-- `Command.Tracer` says when it starts and shuts down the tracer.
--
-- How values are modelled. A string is its characters and not its bytes; the order of two strings,
-- which Go takes by bytes of UTF-8, is the same by characters. A time is its instant, a natural
-- number of nanoseconds (`Time`). A nil pointer, error or map is `none`. A nil slice and an empty
-- one are the same list. An error is what `errors.Is` and `Error` see of it (`Errors`). A map is an
-- association list (`Dict`), and a `range` over it visits its values in an order that is a
-- parameter (`MapRange`). `sort.SliceStable` is insertion sort, which is stable too (`Sorting`);
-- what newest first means is stated apart from the comparisons, in `Storage.Order`. `strings` and
-- `strconv` are `Text` and `Strconv`, and `net/url` is `Url`, whose escapes `Url.Decoding` reads
-- back.
--
-- A record is not changed once it is stored, so that records are shared does not show.
--
-- Bounds. Two definitions have fuel. The scan of the Redis backend has fuel for its pages, and the
-- number of pages of the iteration is enough; the decimal text of a number has fuel for its digits,
-- and 20 are enough for 64 bits. The walk over links recurses on the room that is left below
-- `maxEvents`, and on the queue where an event is missing, so it ends for every storage. The
-- limits of the program (32 steps, 256 events, 2^20 bytes, a listing of 100, ttls of 30 and 10
-- seconds) are its constants. Integers stay far from 2^63 except in `atoi`, which refuses what is
-- out of range, and in the product of `TTL`, which is taken in 64 bits; the sum of a time and a ttl
-- does not overflow for times that RFC 3339 can name.
--
-- Parameters. encoding/json (`unmarshal`, and `encodes`, whether a response can be encoded),
-- time.Parse and time.Format, the context (what `Err` returns), the order of a range, the Redis
-- client library, the file system, the environment and the YAML decoder, the quoting of `%q`,
-- net/http as the client uses it, and the constructors of the OpenTelemetry SDK. Expiry of keys is
-- left out: the theorems on Redis are about the time before a key runs out, in one call and from
-- one call to the next. The bridge is reached by a client through a router that hands on names that
-- need no escape as they are; what it does to others is not said.
--
-- Not modelled: the routes and timeouts of internal/api/server.go, which configure chi and
-- net/http; flags, signals and logging in cmd/bridge; the programs below examples, which
-- demonstrate the API; and headers other than those of the middleware. internal/metrics is the list
-- of the calls that the handlers make of it.
pub mod Prelude
pub mod Sorting
pub mod Errors
pub mod Dict
pub mod Time
pub mod Text
pub mod Models
pub mod Cdevents
pub mod Storage
pub mod Correlator
pub mod Url
pub mod Otelbridge
pub mod Strconv
pub mod Api
pub mod Config
pub mod Command
