-- ===== src/Lib.antt =====
-- n0ding, a pull-through cache proxy for package registries (npm, PyPI, OCI).
--
-- A proxy answers a request from its cache or from the upstream registry, and stores what may be
-- stored. The parts that are modelled, and the code that each module is about:
--
-- - Storage: internal/storage/controller.go, the byte budget that all caches share. A method is a
--   function from records to records, since each holds the mutex. int64 sums wrap, as int64 of the
--   module Prelude writes out. Storage/Ledger runs sequences of calls, in which a reservation is
--   named by its place.
-- - Maintenance: internal/maintenance/coordinator.go, one collection at a time. Its Run takes the
--   mutex twice, so that a call is three steps of a relation over any number of goroutines.
-- - Locker: keyedLocker of internal/npmproxy/proxy.go, which internal/ociproxy and internal/pypiproxy
--   repeat: a mutex for each key. A pointer is an address in a heap, and a call is four steps.
--   Locker/Mutex is the specification: the mutexes without map, counters and heap.
-- - HttpPolicy: internal/httppolicy/policy.go, which header fields pass on, which redirects are
--   followed, and what may be cached. Http stands for the part of net/http that the program uses:
--   canonical header names and the operations of a Header.
-- - Cache: internal/cache/store.go, the entries of one repository as files. Cache/Files is the file
--   system, an association list of paths, Cache/Naming the names and the metadata, Cache/Store lookup
--   and removal, Cache/Writer and Cache/Put a put up to its last critical section, Cache/Commit that
--   section, Cache/Sweep and Cache/Collect the walks over the directory.
-- - Oci: internal/ociproxy/proxy.go, the proxy of an OCI registry: Oci/Digest has digests and path
--   classes, Oci/Proxy the state, the hits and the authorization, Oci/Proxy/Miss what is fetched and
--   stored, Oci/Serve ServeHTTP.
-- - Npm: internal/npmproxy/proxy.go, the proxy of an npm registry: Npm has the state and what is read
--   from a request, Npm/Serve ServeHTTP and a miss, in which the URLs of the upstream are replaced.
-- - Pypi: internal/pypiproxy/proxy.go, the proxy of a package index with a private index beside it:
--   Pypi/Names and Pypi/Origins the names and origins, Pypi/Proxy the state and New, Pypi/Links the links
--   between the two sides, Pypi/Documents the pages in JSON and HTML, Pypi/Disk, Pypi/Private and
--   Pypi/Publish the private files, their index and the uploads, Pypi/Serve and Pypi/Handler the
--   requests.
-- - Server: internal/httpserver/server.go: Server has collect, collectPressure and the guard of
--   operatorGC, Server/Startup the usage and the controller with which New begins and what the tickers
--   of RunMaintenance start, Server/Repositories the loop of New over the configured repositories,
--   Server/Pages and Server/Metrics what is shown. Repository is the record of
--   internal/repository/repository.go, which Npm/Status, Oci/Status and Pypi/Status fill.
-- - Config: internal/config/config.go: Config has the checks on repositories in Validate, Config/Settings
--   the other sections and their checks, Config/Parse the loop over the lines and Load.
--
-- How they meet: the three proxies look up and put in Cache with the rules of HttpPolicy; Exchange
-- is what they share, a request with what it meets and the response that is written, and Hex is the
-- part of encoding/hex that they use. An upload to Pypi takes its bytes from the same Storage as
-- Cache; a put reserves and commits bytes in Storage; Server removes entries of Cache and gives
-- their bytes back to Storage, in a run that Maintenance admits.
--
-- Conventions. Numbers are naturals, or the integers of Prelude/Int for Go's int64 and for times in
-- nanoseconds. A text is the list of its codes, one for each byte, in ASCII. An error is `none`, a
-- constructor or a flag; its message is kept only where the program shows it to a client. What is
-- not in the repository is an argument: the JSON codec, SHA-256, free space, the clock, the names
-- of temporary files, the upstream, url.Parse, and an oracle that says which file operations fail.
-- A float64 of the configuration is a multiple of 2^-1074. What the client takes of a body, and
-- where a source ends in an error, is part of the source. The order of a Go map is the order of a
-- list that the theorems range over, and sort.Slice is a stable sort. The one fuel is that of
-- strconv.FormatInt in Exchange: 20 digits, which hold every int64. A rounding of floating-point
-- seconds in the field Age is not modelled.
--
-- Not modelled: the text of the dashboard, the mux, cmd/n0ding, test fixtures and scripts. A put of
-- Cache is one step, though parts of it run outside the mutex; in the proxies other requests act
-- where a request waits for the lock of its key, and in an upload to Pypi external writers act
-- between the test for a release and its link.
pub mod Prelude
pub mod Storage
pub mod Maintenance
pub mod Locker
pub mod Http
pub mod HttpPolicy
pub mod Cache
pub mod Hex
pub mod Exchange
pub mod Repository
pub mod Npm
pub mod Oci
pub mod Pypi
pub mod Server
pub mod Config
