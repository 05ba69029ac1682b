-- ===== src/Lib.antt =====
-- cachekit: a model of the parts of the Python cache library that decide what a cached call returns.
--
-- The components, with the source that each models and the files that hold it:
--
-- Errors: `BackendErrorType` and the predicates of `BackendError` (src/cachekit/backends/errors.py).
-- Breaker: the circuit breaker (src/cachekit/reliability/circuit_breaker.py). The state is the record
--   `CircuitBreaker` with the fields of `__init__`; `allow_request`, `on_success`, `on_failure` and
--   `reset` are `_allow_request`, `_on_success`, `_on_failure` and `reset`. Breaker/Events has the
--   sequences of calls, Breaker/Invariant, Trips, Recovery and Stuck what they lead to.
-- Orchestrator: how `FeatureOrchestrator` drives the breaker (src/cachekit/decorators/orchestrator.py):
--   `should_allow_request` before a cached call, `record_success`, `record_failure` and
--   `handle_cache_error` after it.
-- Backpressure: `BackpressureController` (src/cachekit/reliability/load_control.py). Its `acquire` is
--   cut at the places where another thread can come in, and Backpressure/Threads runs any number of
--   threads through these steps, in any order.
-- OrderedDict: the ordered dictionary of the Python library, least recently used entry first, that
--   both caches store their entries in.
-- ObjectCache: the cache of live objects with stale-while-revalidate (src/cachekit/object_cache.py).
--   State has the records and `__init__`, Evict the private `_remove` and `_evict`, Calls the public
--   methods, and Run the sequences of calls. Changes breaks every method into a few atomic changes, and
--   the invariants are proved on these: Counted (the byte count and the refresh markers), Bounds and
--   Limits (the limits), Reads (what reads and writes see), Refresh (the fencing of refreshes).
-- L1Cache: the cache of bytes (src/cachekit/l1_cache.py). State has the records, `__init__` and the
--   private helpers, Calls the public methods, Run the sequences of calls; Manager is the registry
--   `L1CacheManager`, Budget its sequences of calls.
-- Keys: cache keys (src/cachekit/key_generator.py). `sanitize_func_name` is `_sanitize_func_name`,
--   `joined_parts` the parts of `generate_key` before `normalize_key`. Strings has the strings, Names the
--   names of functions, Layout what the cache server accepts, Unique when two keys are the same.
-- Interop: the language-neutral mode (src/cachekit/interop.py). Segments is about its keys;
--   Encode and Values have the canonical encoder, with `encode` for `_encode`; Decode and Meaning read
--   MessagePack by its specification, independently of the encoder; RoundTrip, Canonical and Faithful
--   compare the two; Order is about the sorting of the fields of a map.
-- Classify: how the exceptions of the client packages become backend errors
--   (src/cachekit/backends/*/error_handler.py), and which of these count against a backend
--   (src/cachekit/reliability/error_classification.py).
-- Handler: how bytes become values and values bytes (src/cachekit/cache_handler.py), over the protocol of
--   a backend (src/cachekit/backends/base.py). Metadata and Frame are the metadata and the envelope
--   (src/cachekit/serializers/base.py and wrapper.py), Backend the protocol and what callers rely on, Read `deserialize_data` and `get_cached_value`, Store
--   `serialize_data` and `store_result`. Downgrade, Policy, ReadBack with RoundTrip, and Faithful prove;
--   Samples has a dictionary as a backend.
-- File: the backend that keeps a file for each key (src/cachekit/backends/file/backend.py). Header is the
--   format of a file, Doubles the rounding of the thresholds, Reads and Writes have the operations,
--   Payloads what they keep; Fits makes it a backend of Handler/Backend, Atomic is about failures, Capacity and Limits about the eviction,
--   Expiry and Lifetime about expiry.
-- Memcached: the backend over a Memcached client (src/cachekit/backends/memcached/backend.py); Fits makes it
--   a backend of Handler/Backend.
-- Wrapper: the synchronous decorator (src/cachekit/decorators/wrapper.py). Calls has `sync_wrapper` in
--   stages, Invalidate `invalidate_cache`. Values with Justified, Refines, Transparent and OnFiles
--   compare it with the function without a cache, Endings with Availability say how a call can end,
--   Breaker and Outage what the circuit breaker does.
-- Common: the names, the lists and the integers that the components share.
--
-- The methods of a cache hold its lock from the first read to the last write, so each is one function
-- from the state, and from the clocks that it reads, to the new state and its result. An exception is a
-- value of a result type, and leaves the state as it was. Times are whole numbers of ticks; each
-- clock that a method reads is an argument of its own, and nothing says that clocks go forward.
--
-- The one loop that is not on a list is the eviction of the object cache: `evict_lru` runs on fuel that
-- is the number of entries, and each round removes one, so that the fuel is enough
-- (ObjectCache/Fits). The reader of MessagePack runs on fuel too; the number of nodes of a value, `need`
-- of Interop/Canonical, is enough for its encoding. `ulp_from` of File/Doubles doubles a unit at most 64
-- times, which reaches the unit of any product of the accepted limits.
--
-- Not modelled: reporting (metrics, log lines, traces, health dictionaries), the normalisation of
-- arguments and values before they are encoded, the serializers, the ciphers, configuration, the
-- asynchronous decorator, and background revalidation in the decorator. Parameters are the estimate of
-- the size of a Python object, digests, UTF-8, the packing of floats, the classes of the exceptions of
-- the client packages, and for a call of the decorator what the wrapped function does. The Redis and the
-- cachekit.io backends, over clients that are packages of their own, are not modelled.
pub mod Backpressure
pub mod Breaker
pub mod Classify
pub mod Common
pub mod Errors
pub mod File
pub mod Handler
pub mod Interop
pub mod Keys
pub mod L1Cache
pub mod Memcached
pub mod ObjectCache
pub mod Orchestrator
pub mod OrderedDict
pub mod Wrapper
