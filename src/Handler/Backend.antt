-- ===== src/Handler/Backend.antt =====
-- The protocol of a backend (`BaseBackend`, src/cachekit/backends/base.py), and `StandardCacheHandler`
-- of src/cachekit/cache_handler.py over it. What a backend raises, the rejections of the
-- backpressure controller included, is a reply.
use cachekit_py.Common.{ℕ, Bool, true, false, Option, none, some, ◌≡◌, ◌⊎◌}
use cachekit_py.Errors.{Error}
use cachekit_py.Handler.{Bytes}

pub data Reply (A : Type 0) : Type 0 where
  done : A → Reply A
  fails : Error → Reply A

-- The operations over the state `S` of a backend. Clocks and faults are part of that state.
pub record Backend (K S : Type 0) : Type 0 where
  pub get : K → S → S × Reply (Option Bytes)
  pub set : K → Bytes → Option ℕ → S → S × Reply Unit
  pub delete : K → S → S × Reply Bool

abbrev pub or_none : {A : Type 0} → Reply (Option A) → Option A
or_none (done r) = r
or_none (fails e) = none

abbrev pub succeeded : {A : Type 0} → Reply A → Bool
succeeded (done a) = true
succeeded (fails e) = false

abbrev pub or_false : Reply Bool → Bool
or_false (done b) = b
or_false (fails e) = false

module _ {K S : Type 0} (backend : Backend K S) where
  -- `StandardCacheHandler.get`: an exception reads as a miss
  abbrev pub handler_get : K → S → S × Option Bytes
  handler_get key s = let (s', r) = backend.get key s in (s', or_none r)

  -- `StandardCacheHandler.set`: an exception is False
  abbrev pub handler_set : K → Bytes → Option ℕ → S → S × Bool
  handler_set key bytes ttl s = let (s', r) = backend.set key bytes ttl s in (s', succeeded r)

  -- `StandardCacheHandler.delete`
  abbrev pub handler_delete : K → S → S × Bool
  handler_delete key s = let (s', r) = backend.delete key s in (s', or_false r)

-- What the callers rely on: the entries that can be read are those that were there before, or the one
-- that `set` was given. Nothing is said of when an entry goes, or of which operations fail.
pub record IsBackend {K S : Type 0} (backend : Backend K S) (Holds : S → K → Bytes → Type 0)
    : Type 0 where
  pub get_holds :
      (key : K) (s : S) (b : Bytes) → (backend.get key s).1 ≡ done (some b) → Holds s key b
  pub get_keeps :
      (key : K) (s : S) (j : K) (b : Bytes) → Holds (backend.get key s).0 j b → Holds s j b
  pub set_keeps :
      (key : K) (bytes : Bytes) (ttl : Option ℕ) (s : S) (j : K) (b : Bytes)
      → Holds (backend.set key bytes ttl s).0 j b
      → Holds s j b ⊎ ((j ≡ key) × (b ≡ bytes))
  pub delete_keeps :
      (key : K) (s : S) (j : K) (b : Bytes) → Holds (backend.delete key s).0 j b → Holds s j b
