-- ===== src/Memcached.antt =====
-- src/cachekit/backends/memcached/backend.py: the backend over a Memcached client, which is a package of
-- its own and a parameter: its calls over a state that holds the servers.
pub mod Fits
mod Tests
use cachekit_py.Common.{
  ℕ, zero, suc, Bool, true, false, ◌&&◌, List, [], ◌∷◌, ◌++◌, Option, none, some, is_some, ltb, leb,
  length, if◌then◌else◌,
}
use cachekit_py.Common.Int.{ℤ, pos, negsuc}
use cachekit_py.Errors.{Error, backend_error, permanent}
use cachekit_py.Keys.{String}
use cachekit_py.Classify.{MemcachedException, classify_memcached_error}
use cachekit_py.Handler.{Bytes}
use cachekit_py.Handler.Backend.{Reply, done, fails}

pub record MemcachedConfig : Type 0 where
  pub key_prefix : String
  pub max_item_size_bytes : ℕ

pub data ClientReply (A : Type 0) : Type 0 where
  replied : A → ClientReply A
  client_raised : MemcachedException → ClientReply A

-- `HashClient`; the numbers are the expiry in seconds, 0 for none
pub record Client (S : Type 0) : Type 0 where
  pub get : String → S → S × ClientReply (Option Bytes)
  pub set : String → Bytes → ℕ → S → S × ClientReply Bool
  pub delete : String → S → S × ClientReply Bool
  pub touch : String → ℕ → S → S × ClientReply Bool

-- thirty days
abbrev pub max_memcached_ttl : ℕ
max_memcached_ttl = 2592000

-- an exception of the client becomes a `BackendError`
unfoldable pub classified : {A B : Type 0} → (A → B) → ClientReply A → Reply B
classified f (replied a) = done (f a)
classified f (client_raised exc) = fails (classify_memcached_error exc)

-- the expiry that `set` and `refresh_ttl` compute
unfoldable pub expire_of : Option ℤ → ℕ
expire_of none = 0
expire_of (some (negsuc n)) = 0
expire_of (some (pos n)) = if leb n max_memcached_ttl then n else max_memcached_ttl

module _ {S : Type 0} (config : MemcachedConfig) (client : Client S) where
  -- an empty prefix is no prefix
  unfoldable pub prefixed_key : String → String
  prefixed_key key = config.key_prefix ++ key

  unfoldable pub get : String → S → S × Reply (Option Bytes)
  unfolding prefixed_key
  get key s = let (s', r) = client.get (prefixed_key key) s in (s', classified (λ found. found) r)

  -- a limit of 0 is none
  abbrev pub is_oversized : Bytes → Bool
  is_oversized value =
      ltb 0 config.max_item_size_bytes && ltb config.max_item_size_bytes (length value)

  unfoldable pub set : String → Bytes → Option ℤ → S → S × Reply Unit
  unfolding prefixed_key
  set key value ttl s =
      let (s', r) = client.set (prefixed_key key) value (expire_of ttl) s in
      if is_oversized value
      then (s, fails (backend_error permanent))
      else (s', classified (λ stored. tt) r)

  unfoldable pub delete : String → S → S × Reply Bool
  unfolding prefixed_key
  delete key s =
      let (s', r) = client.delete (prefixed_key key) s in (s', classified (λ gone. gone) r)

  unfoldable pub exists : String → S → S × Reply Bool
  unfolding prefixed_key
  exists key s =
      let (s', r) = client.get (prefixed_key key) s in (s', classified (λ found. is_some found) r)

  unfoldable pub refresh_ttl : String → ℤ → S → S × Reply Bool
  unfolding prefixed_key
  refresh_ttl key ttl s =
      let (s', r) = client.touch (prefixed_key key) (expire_of (some ttl)) s in
      (s', classified (λ found. found) r)
