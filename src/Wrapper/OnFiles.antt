-- ===== src/Wrapper/OnFiles.antt =====
-- The decorator (src/cachekit/decorators/wrapper.py) over the file backend
-- (src/cachekit/backends/file/backend.py), from an empty directory.
use cachekit_py.Common.{ℕ, true, false, List, [], Option, none, some, ◌≡◌, arith}
use cachekit_py.Common.Int.{ℤ}
use cachekit_py.OrderedDict
use cachekit_py.OrderedDict.{OrderedDict}
use cachekit_py.Orchestrator.{FeatureOrchestrator}
use cachekit_py.L1Cache.State
use cachekit_py.L1Cache.State.{L1Cache}
use cachekit_py.Handler.Read.{Codec, Config}
use cachekit_py.Handler.Store.{Encoder}
use cachekit_py.Handler.RoundTrip.{IsCodec}
use cachekit_py.File.{FileConfig}
use cachekit_py.File.Fits.{
  Moment, Disk, file_backend, HoldsPayload, file_backend-IsBackend, no_payload,
}
use cachekit_py.L1Cache.State.{Float}
use cachekit_py.Wrapper.{Decorator, State}
use cachekit_py.Wrapper.Refines.{Request, run, Refines, AllHonest}
use cachekit_py.Wrapper.Transparent.{cached-Refines}
use cachekit_py.Wrapper.Values.{IsSound}

module _ {K P V A : Type 0} (dec : Discrete K) (dec_path : Discrete P) (file_config : FileConfig)
    (key_to_path : K → P) (moment : ℕ → Moment P) (config : Config) (codec : Codec K V)
    (encoder : Encoder K V A) (ttl : Option ℕ) where
  abbrev pub on_files : Decorator K V A (Disk P)
  on_files = record {
    config = config;
    codec = codec;
    encoder = encoder;
    backend = file_backend dec_path file_config key_to_path moment;
    ttl = ttl;
    prefixed = false;
  }

  -- no file, no entry of L1, no key
  abbrev pub start : FeatureOrchestrator → ℕ → ℤ → State K (Disk P)
  start features max_memory_mb buffer = record {
    store = record {
      backend_state = record { directory = record { files = []; temp_files = [] }; operations = 0 };
      features = features;
    };
    l1_cache = some (State.init max_memory_mb buffer);
    cached_keys = [];
    l1_hits = 0;
    l2_hits = 0;
    misses = 0;
  }

  start-IsSound :
      (answer : K → V) (features : FeatureOrchestrator) (mb : ℕ) (buffer : ℤ)
      → IsSound dec on_files
          (HoldsPayload dec_path file_config key_to_path moment)
          answer
          (start features mb buffer)
  unfolding State.init OrderedDict.get
  start-IsSound answer features mb buffer = (
    λ key b held. absurd (no_payload dec_path file_config key_to_path moment 0 key b held),
    λ key e found. absurd (ground arith),
  )

  -- A decorated function with L1 over the file backend, from an empty directory: if no write is short, no
  -- two keys have the same path, the serializer and the cipher take back what they give, there is no
  -- extractor of tenants in interop mode, and the key of a call determines the function's result,
  -- then over any sequence of calls and invalidations, whatever the clocks say and whichever system
  -- calls fail, each call has one outcome: the function's value for its arguments, an exception of its
  -- own executions, or one of the cache with its cause: bytes of L1 or of the
  -- backend for the call's key that fail their authentication with `fail_closed` set, or that the
  -- keyring cannot read, interop mode, or a value that the encoder
  -- rejects as `InteropError`. No failure of a system call is an exception of a call.
  pub on_files-Refines :
      (f : A → V) (answer : K → V) (requests : List (Request K V A))
      (features : FeatureOrchestrator) (mb : ℕ) (buffer : ℤ)
      → ((n : ℕ) → (moment n).write_faults.written ≡ none)
      → ((j k : K) → key_to_path j ≡ key_to_path k → j ≡ k)
      → IsCodec codec encoder config
      → (config.interop_mode ≡ true → encoder.tenant_extractor ≡ none)
      → AllHonest f answer requests
      → Refines dec on_files f
          (start features mb buffer)
          requests
          (run dec on_files requests (start features mb buffer)).1
  on_files-Refines f answer requests features mb buffer whole injective law single honest =
      cached-Refines dec on_files (HoldsPayload dec_path file_config key_to_path moment)
        (file_backend-IsBackend dec_path file_config key_to_path moment whole injective) law single
        answer f requests (start features mb buffer) honest
        (start-IsSound answer features mb buffer)
