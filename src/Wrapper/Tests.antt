-- ===== src/Wrapper/Tests.antt =====
-- Runs of a decorated function over a dictionary, and the theorems on it.
use cachekit_py.Common.{
  ℕ, ◌*◌, Bool, true, false, List, [], ◌∷◌, map, none, some, ◌≡◌, ◌≢◌, refl, arith, All, ℕ_discrete,
}
use cachekit_py.Common.Int.{pos, ◌+ℤ◌, ◌-ℤ◌}
use cachekit_py.Errors.{backend_error, timeout, other_exception}
use cachekit_py.Breaker.{CircuitBreaker, opened, on_success, on_failure}
use cachekit_py.Orchestrator.{
  should_allow_request, record_success, record_failure, handle_cache_error,
}
use cachekit_py.Orchestrator.Latch.{HasOpenBreaker}
use cachekit_py.OrderedDict
use cachekit_py.OrderedDict.{OrderedDict}
use cachekit_py.L1Cache.State.{L1Cache, second, finite}
use cachekit_py.L1Cache.State
use cachekit_py.L1Cache.Calls
use cachekit_py.Handler.{Bytes, handle_decrypt_failure, keyring_config, failed}
use cachekit_py.Handler.Metadata.{from_dict, to_dict}
use cachekit_py.Handler.Frame.{unwrap, unwrap_frame, wrap}
use cachekit_py.Handler.Read.{
  deserialize_data, deserialize_interop, deserialize_envelope, deserialize_payload,
  get_cached_value, on_read_error, handle_l2_read_error,
}
use cachekit_py.Handler.Store.{
  interop_error, serialize_data, wrapped, limited, store_bytes, store_result,
}
use cachekit_py.Handler.Backend.{done, fails}
use cachekit_py.Handler.Samples.{
  DictHolds, dict_backend-IsBackend, sample_codec, sample_config, sample_encoder, sample-IsCodec,
}
use cachekit_py.Wrapper.{
  Execution, returns, raises, returned, execute, without_run, Decorator, Call, State,
}
use cachekit_py.Wrapper.Calls.{
  sync_wrapper, with_key, with_client, from_l1, after_l1, after_l1_read, after_l1_error, from_l2,
  after_lookup, on_miss, after_run, store_value, after_store, run_uncached,
}
use cachekit_py.Wrapper.Invalidate.{
  invalidate_key, invalidate_next, invalidate_keys, invalidate_all,
}
use cachekit_py.Wrapper.Values.{IsHonest, IsSound}
use cachekit_py.Wrapper.Refines.{invoke, run, Refines, AllHonest}
use cachekit_py.Wrapper.Transparent.{cached-Refines}
use cachekit_py.File.{FileConfig}
use cachekit_py.File.Fits.{Moment, Disk}
use cachekit_py.File.Lifetime.{no_faults, no_write_faults}
use cachekit_py.Wrapper.OnFiles.{on_files, start, on_files-Refines}
use cachekit_py.Wrapper.Availability.{Returns, always_returns, IsBounded, executions-IsBounded}
use cachekit_py.Wrapper.Breaker.{open_disables_cache}
use cachekit_py.Wrapper.Outage.{IsRegular, Succeeds, Raises, outage_unseen, application_errors_open}
use cachekit_py.Wrapper.Samples.{
  answer, decorator, call_of, good_call, breaker, fresh, with_l1, session,
}

program : Unit {0}
unfolding State.init State.expiry_of State.is_expired State.remove_entry State.evict_for_space
    State.evict_scan State.pop_all Calls.get Calls.put_bytes Calls.store_entry Calls.invalidate
    OrderedDict.get OrderedDict.pop OrderedDict.set OrderedDict.move_to_end ℕ_discrete ◌+ℤ◌ ◌-ℤ◌
    sync_wrapper with_key with_client from_l1 after_l1 after_l1_read after_l1_error from_l2
    after_lookup on_miss after_run store_value after_store run_uncached run invalidate_key
    invalidate_next invalidate_keys invalidate_all get_cached_value on_read_error
    handle_l2_read_error handle_decrypt_failure deserialize_data deserialize_interop
    deserialize_envelope deserialize_payload from_dict to_dict unwrap unwrap_frame wrap
    serialize_data wrapped limited store_bytes store_result should_allow_request record_success
    record_failure handle_cache_error on_success on_failure
program = tt

-- a miss that executes the function, a hit of L1 that does not, and after the invalidation a miss
session_outcomes :
    (run ℕ_discrete decorator session with_l1).1
    ≡ execute 0 (returns (answer 3))
      ∷ without_run (returned (answer 3))
      ∷ execute 0 (returns (answer 4))
      ∷ []
unfolding program
session_outcomes = refl

session_keys : (run ℕ_discrete decorator session with_l1).0.cached_keys ≡ []
unfolding program
session_keys = refl

session_counts : (run ℕ_discrete decorator session with_l1).0.misses ≡ 2
unfolding program
session_counts = refl

-- without L1 the second call reads the entry of the backend
l2_outcomes :
    (run ℕ_discrete decorator
      (invoke (good_call 3) ∷ invoke (good_call 3) ∷ [])
      (fresh breaker none)).1
    ≡ execute 0 (returns (answer 3)) ∷ without_run (returned (answer 3)) ∷ []
unfolding program
l2_outcomes = refl

good_call-IsHonest : (n : ℕ) → IsHonest answer answer (good_call n)
good_call-IsHonest n = record {
  first_right = λ v e. ground arith;
  second_right = λ v e. ground arith;
  key_right = λ key e. ground arith;
}

session_honest : AllHonest answer answer session
session_honest = (good_call-IsHonest 3, (good_call-IsHonest 3, (good_call-IsHonest 4, tt)))

with_l1-IsSound : IsSound ℕ_discrete decorator DictHolds answer with_l1
unfolding program
with_l1-IsSound = (λ key b h. absurd (ground arith), λ key e h. absurd (ground arith))

cached-Refines_example :
    Refines ℕ_discrete decorator answer with_l1 session (run ℕ_discrete decorator session with_l1).1
cached-Refines_example =
    cached-Refines ℕ_discrete decorator DictHolds dict_backend-IsBackend (sample-IsCodec false true)
      (λ e. refl) answer answer session with_l1 session_honest with_l1-IsSound

again_call : Call ℕ Bytes ℕ
again_call = call_of (raises (backend_error timeout)) (returns (answer 3)) 3

executions-IsBounded_example :
    IsBounded ℕ_discrete decorator again_call
      (sync_wrapper ℕ_discrete decorator again_call with_l1).1
executions-IsBounded_example = executions-IsBounded ℕ_discrete decorator again_call with_l1

abbrev open_breaker : CircuitBreaker
open_breaker = record breaker { state = opened; failure_count = 2; last_failure_time = 4 }

abbrev two_calls : List (Call ℕ Bytes ℕ)
two_calls = good_call 3 ∷ good_call 4 ∷ []

open_disables_cache_example :
    HasOpenBreaker
      ((run ℕ_discrete decorator (map invoke two_calls) (fresh open_breaker none)).0.store.features)
    × ((run ℕ_discrete decorator
          (map invoke two_calls)
          (fresh open_breaker none)).0.store.backend_state
        ≡ [])
    × ((run ℕ_discrete decorator (map invoke two_calls) (fresh open_breaker none)).0.l1_cache
        ≡ none)
    × ((run ℕ_discrete decorator (map invoke two_calls) (fresh open_breaker none)).1
        ≡ map (λ c. execute 0 c.first) two_calls)
open_disables_cache_example =
    open_disables_cache ℕ_discrete decorator two_calls (fresh open_breaker none) refl
      (open_breaker, refl, refl)

-- every operation raises
abbrev broken : Decorator ℕ Bytes ℕ (OrderedDict ℕ Bytes)
broken = record decorator {
  backend = record {
    get = λ key s. (s, fails (backend_error timeout));
    set = λ key bytes ttl s. (s, fails (backend_error timeout));
    delete = λ key s. (s, fails (backend_error timeout));
  };
}

-- every operation succeeds, and nothing is kept
abbrev forgetful : Decorator ℕ Bytes ℕ (OrderedDict ℕ Bytes)
forgetful = record decorator {
  backend = record {
    get = λ key s. (s, done none);
    set = λ key bytes ttl s. (s, done tt);
    delete = λ key s. (s, done false);
  };
}

call_of-IsRegular : (a b : Execution Bytes) (n : ℕ) → IsRegular ℕ_discrete broken (call_of a b n)
call_of-IsRegular a b n = record { no_bypass = refl; has_key = (n, refl); has_client = refl }

accepts :
    (encryption : Bool) (n key : ℕ)
    → serialize_data sample_encoder (sample_config false encryption) (answer n) n key
      ≢ interop_error
unfolding program
accepts true n key p = absurd (ground arith)
accepts false n key p = absurd (ground arith)

good_call-Succeeds : (n : ℕ) → Succeeds ℕ_discrete broken (good_call n)
good_call-Succeeds n = (
  call_of-IsRegular (returns (answer n)) (returns (answer n)) n,
  (answer n, refl, accepts true n),
)

two_calls_succeed : All (Succeeds ℕ_discrete broken) two_calls
two_calls_succeed = (good_call-Succeeds 3, (good_call-Succeeds 4, tt))

outage_unseen_example :
    ((run ℕ_discrete broken
        (map invoke two_calls)
        (fresh breaker none)).0.store.features.circuit_breaker
      ≡ some breaker)
    × ((run ℕ_discrete broken (map invoke two_calls) (fresh breaker none)).1
        ≡ map (λ c. execute 0 c.first) two_calls)
outage_unseen_example =
    outage_unseen ℕ_discrete broken two_calls (fresh breaker none) breaker refl (λ key s. refl)
      two_calls_succeed refl refl refl

abbrev bad_calls : List (Call ℕ Bytes ℕ)
bad_calls = call_of (raises other_exception) (raises other_exception) 4 ∷ []

abbrev bad_call : Call ℕ Bytes ℕ
bad_call = call_of (raises other_exception) (raises other_exception) 3

bad_calls_raise : All (Raises ℕ_discrete forgetful) (bad_call ∷ bad_calls)
bad_calls_raise = (
  (record { no_bypass = refl; has_key = (3, refl); has_client = refl }, refl),
  ((record { no_bypass = refl; has_key = (4, refl); has_client = refl }, refl), tt),
)

application_errors_open_example : HasOpenBreaker (
    (run ℕ_discrete forgetful
      (map invoke (bad_call ∷ bad_calls))
      (fresh breaker none)).0.store.features)
application_errors_open_example =
    application_errors_open ℕ_discrete forgetful bad_call bad_calls (fresh breaker none) breaker
      refl (λ key s. refl) bad_calls_raise refl refl refl refl

-- a handler without encryption has no use for the keyring
abbrev plain : Decorator ℕ Bytes ℕ (OrderedDict ℕ Bytes)
plain = record decorator { config = sample_config false false }

reads_without_keyring :
    (b : Bytes) (key : ℕ)
    → deserialize_data sample_codec (sample_config false false) b key ≢ failed keyring_config
unfolding program
reads_without_keyring b key p = absurd (ground arith)

always_returns_example :
    Returns ℕ_discrete plain
      (good_call 3)
      (sync_wrapper ℕ_discrete plain (good_call 3) (fresh breaker none)).1
always_returns_example =
    always_returns ℕ_discrete plain (good_call 3) (fresh breaker none) (answer 3) refl refl
      reads_without_keyring (accepts false 3) refl

abbrev moments : ℕ → Moment ℕ
moments n = record { now = n * 1000; faults = no_faults; write_faults = no_write_faults }

abbrev file_config : FileConfig
file_config = record { max_size_mb = 100; max_value_mb = 10; max_entry_count = 1000 }

abbrev file_decorator : Decorator ℕ Bytes ℕ (Disk ℕ)
file_decorator =
    on_files ℕ_discrete ℕ_discrete file_config (λ k. k) moments (sample_config false true)
      sample_codec sample_encoder (some 60)

abbrev file_start : State ℕ (Disk ℕ)
file_start =
    start ℕ_discrete ℕ_discrete file_config (λ k. k) moments (sample_config false true) sample_codec
      sample_encoder (some 60) (record { circuit_breaker = some breaker }) 1 (pos second)

on_files-Refines_example :
    Refines ℕ_discrete file_decorator answer file_start session
      (run ℕ_discrete file_decorator session file_start).1
on_files-Refines_example =
    on_files-Refines ℕ_discrete ℕ_discrete file_config (λ k. k) moments (sample_config false true)
      sample_codec sample_encoder (some 60) answer answer session
      (record { circuit_breaker = some breaker }) 1 (pos second) (λ n. refl) (λ j k e. e)
      (sample-IsCodec false true) (λ e. refl) session_honest
