-- ===== src/Memcached/Fits.antt =====
-- The Memcached backend (src/cachekit/backends/memcached/backend.py) as a backend of the cache handler.
use cachekit_py.Common.{
  ℕ, zero, suc, ◌≤◌, ◌<◌, ◌≢◌, Bool, true, false, List, [], ◌∷◌, ◌++◌, Option, none, some,
  if◌then◌else◌, ◌≡◌, refl, arith, inl, inr, ◌⊎◌,
}
use cachekit_py.Common.Int.{ℤ, pos, negsuc}
use cachekit_py.Errors.{backend_error, permanent}
use cachekit_py.Keys.{String}
use cachekit_py.Handler.{Bytes}
use cachekit_py.Handler.Backend.{Backend, IsBackend, Reply, done, fails}
use cachekit_py.Memcached.{
  MemcachedConfig, Client, ClientReply, replied, client_raised, classified, expire_of,
  max_memcached_ttl, prefixed_key, get, set, delete, is_oversized,
}

-- What the servers do, by the protocol: they give back what they hold, and hold what they were given. A
-- call that raises may have had its effect or not.
pub record IsClient {S : Type 0} (client : Client S) (Holds : S → String → Bytes → Type 0)
    : Type 0 where
  pub get_holds :
      (key : String) (s : S) (b : Bytes) → (client.get key s).1 ≡ replied (some b) → Holds s key b
  pub get_keeps :
      (key : String) (s : S) (j : String) (b : Bytes) → Holds (client.get key s).0 j b → Holds s j b
  pub set_keeps :
      (key : String) (bytes : Bytes) (expire : ℕ) (s : S) (j : String) (b : Bytes)
      → Holds (client.set key bytes expire s).0 j b
      → Holds s j b ⊎ ((j ≡ key) × (b ≡ bytes))
  pub delete_keeps :
      (key : String) (s : S) (j : String) (b : Bytes)
      → Holds (client.delete key s).0 j b
      → Holds s j b

abbrev pub with_ttl : Option ℕ → Option ℤ
with_ttl none = none
with_ttl (some n) = some (pos n)

-- keys with the same prefix differ as the keys do
prefix_cancels : (p j k : String) → p ++ j ≡ p ++ k → j ≡ k
prefix_cancels [] j k e = e
prefix_cancels (c ∷ p) j k e = prefix_cancels p j k (tails e)
  where
    tails : {x y : List ℕ} → c ∷ x ≡ c ∷ y → x ≡ y
    tails q = ground arith

module _ {S : Type 0} (config : MemcachedConfig) (client : Client S) where
  abbrev pub memcached_backend : Backend String S
  memcached_backend = record {
    get = get config client;
    set = λ key bytes ttl s. set config client key bytes (with_ttl ttl) s;
    delete = delete config client;
  }

  -- the servers hold the bytes under the key with its prefix
  abbrev pub HoldsPrefixed : (S → String → Bytes → Type 0) → S → String → Bytes → Type 0
  HoldsPrefixed Holds s key b = Holds s (prefixed_key config client key) b

  found_bytes :
      (r : ClientReply (Option Bytes)) (b : Bytes)
      → classified (λ found. found) r ≡ done (some b)
      → r ≡ replied (some b)
  unfolding classified
  found_bytes (replied found) b p = ground arith
  found_bytes (client_raised exc) b p = absurd (ground arith)

  module _ (Holds : S → String → Bytes → Type 0) (law : IsClient client Holds) where
    -- the state of one of two results
    either :
        (big : Bool) (p q : S × Reply Unit) (R : S → Type 0)
        → R ((if big then p else q)).0
        → R p.0 ⊎ R q.0
    either true p q R h = inl h
    either false p q R h = inr h

    set-keeps :
        (key : String) (bytes : Bytes) (ttl : Option ℤ) (s : S) (j : String) (b : Bytes)
        → HoldsPrefixed Holds (set config client key bytes ttl s).0 j b
        → HoldsPrefixed Holds s j b ⊎ ((j ≡ key) × (b ≡ bytes))
    unfolding set prefixed_key
    set-keeps key bytes ttl s j b h =
        let path = config.key_prefix ++ key in
        let r = client.set path bytes (expire_of ttl) s in
        elim (either (is_oversized config client bytes) (s, fails (backend_error permanent))
          (r.0, classified (λ stored. tt) r.1) (λ s'. Holds s' (config.key_prefix ++ j) b) h) [
            | inl old ↦ inl old
            | inr new ↦
                elim (law.set_keeps path bytes (expire_of ttl) s (config.key_prefix ++ j) b new) [
                  | inl old ↦ inl old
                  | inr (q, e) ↦ inr (prefix_cancels config.key_prefix j key q, e)
                ]
          ]

    -- Over a client that gives back what it was given, whatever its calls raise and whatever the prefix,
    -- the backend gives back, under a key, only what a `set` of that very key was given.
    pub memcached_backend-IsBackend : IsBackend memcached_backend (HoldsPrefixed Holds)
    unfolding get delete prefixed_key
    memcached_backend-IsBackend = record {
      get_holds = λ key s b p.
          law.get_holds (config.key_prefix ++ key) s b
            (found_bytes (client.get (config.key_prefix ++ key) s).1 b p);
      get_keeps =
          λ key s j b h. law.get_keeps (config.key_prefix ++ key) s (config.key_prefix ++ j) b h;
      set_keeps = λ key bytes ttl s j b h. set-keeps key bytes (with_ttl ttl) s j b h;
      delete_keeps =
          λ key s j b h. law.delete_keeps (config.key_prefix ++ key) s (config.key_prefix ++ j) b h;
    }

-- The expiry that `set` and `refresh_ttl` give to the client is at most thirty days. It is positive for a
-- positive time to live, and 0, which means never, for every other one.
pub expire_bounds :
    (ttl : ℤ)
    → (expire_of (some ttl) ≤ max_memcached_ttl)
      × (((n : ℕ) × (ttl ≡ pos (suc n)) × (0 < expire_of (some ttl)))
          ⊎ (((n : ℕ) → ttl ≢ pos (suc n)) × (expire_of (some ttl) ≡ 0)))
unfolding expire_of
expire_bounds (negsuc n) = (omega arith, inr (λ m e. absurd (ground arith), refl))
expire_bounds (pos zero) = (ground arith, inr (λ m e. absurd (ground arith), ground arith))
expire_bounds (pos (suc n)) = (ground arith, inl (n, refl, ground arith))
