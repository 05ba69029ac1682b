-- ===== src/Wrapper.antt =====
-- src/cachekit/decorators/wrapper.py: the synchronous decorator over L1 and a backend, without the
-- background revalidation. A call comes with what it meets: the key or none where its generation
-- fails, the failure of the client's creation, the clock readings, and what the wrapped function does
-- when it is executed for the first and for the second time.
pub mod Calls
pub mod Invalidate
pub mod Values
pub mod Justified
pub mod Refines
pub mod Transparent
pub mod OnFiles
pub mod Samples
pub mod Endings
pub mod Availability
pub mod Breaker
pub mod Outage
mod Tests
use cachekit_py.Common.{ℕ, ◌+◌, Bool, true, false, List, [], ◌∷◌, Option, none, some, ite}
use cachekit_py.Common.Int.{ℤ}
use cachekit_py.Errors.{Error}
use cachekit_py.Handler.Read.{Config, Codec, Store}
use cachekit_py.Handler.Store.{Encoder}
use cachekit_py.Handler.Backend.{Backend}
use cachekit_py.L1Cache.State.{L1Cache, Float}

-- what leaves a call: an exception of the function, or one of the cache that is let through
pub data Exception : Type 0 where
  function_error : Error → Exception
  decryption_authentication keyring_configuration interop_rejected : Exception

-- one execution of the wrapped function
pub data Execution (V : Type 0) : Type 0 where
  returns : V → Execution V
  raises : Error → Execution V

pub data Result (V : Type 0) : Type 0 where
  returned : V → Result V
  thrown : Exception → Result V

-- the result of a call, with the number of executions
pub record Outcome (V : Type 0) : Type 0 where
  pub result : Result V
  pub executions : ℕ

abbrev pub of_execution : {V : Type 0} → Execution V → Result V
of_execution (returns v) = returned v
of_execution (raises e) = thrown (function_error e)

-- `return func(*args, **kwargs)`, after `n` executions
abbrev pub execute : {V : Type 0} → ℕ → Execution V → Outcome V
execute n run = record { result = of_execution run; executions = n + 1 }

abbrev pub without_run : {V : Type 0} → Result V → Outcome V
without_run r = record { result = r; executions = 0 }

-- One decorated function: the handler's configuration, what it calls, the backend, and the lifetime of
-- the entries. `prefixed` says that the backend prefixes its keys.
pub record Decorator (K V A S : Type 0) : Type 0 where
  pub config : Config
  pub codec : Codec K V
  pub encoder : Encoder K V A
  pub backend : Backend K S
  pub ttl : Option ℕ
  pub prefixed : Bool

-- `failed_at` and `hook_at` are clock readings of the circuit breaker, the others of L1
pub record Call (K V A : Type 0) : Type 0 where
  pub args : A
  pub bypass_cache : Bool
  pub cache_key : Option K
  pub client_error : Option Error
  pub l1_read_at : ℤ
  pub l1_put_at : ℤ
  pub hook_at : ℕ
  pub failed_at : ℕ
  pub first : Execution V
  pub second : Execution V

-- the backend with the orchestrator, L1, the keys stored so far, and the counters of `cache_info`
pub record State (K S : Type 0) : Type 0 where
  pub store : Store S
  pub l1_cache : Option (L1Cache K)
  pub cached_keys : List K
  pub l1_hits : ℕ
  pub l2_hits : ℕ
  pub misses : ℕ

module _ {K : Type 0} (dec : Discrete K) where
  -- `_cached_keys.add`
  abbrev pub add_key : K → List K → List K
  add_key key [] = key ∷ []
  add_key key (j ∷ keys) = let rest = add_key key keys in ite (dec j key) (j ∷ keys) (j ∷ rest)

  -- `_cached_keys.discard`
  abbrev pub discard_key : K → List K → List K
  discard_key key [] = []
  discard_key key (j ∷ keys) = let rest = discard_key key keys in ite (dec j key) rest (j ∷ rest)
