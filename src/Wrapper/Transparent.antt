-- ===== src/Wrapper/Transparent.antt =====
-- src/cachekit/decorators/wrapper.py with src/cachekit/cache_handler.py: a decorated function and its
-- handler, against the function without a cache.
use cachekit_py.Common.{true, List, none, ◌≡◌, sym, ◌∙◌, arith}
use cachekit_py.Handler.{Bytes, value}
use cachekit_py.Handler.Backend.{IsBackend}
use cachekit_py.Handler.Faithful.{Encodes}
use cachekit_py.Handler.RoundTrip.{IsCodec, serialize-deserialize}
use cachekit_py.Wrapper.{Decorator, State}
use cachekit_py.Wrapper.Refines.{Request, run, Refines, AllHonest, run-Refines}
use cachekit_py.Wrapper.Values.{IsSound}

module _ {K V A S : Type 0} (dec : Discrete K) (d : Decorator K V A S)
    (Holds : S → K → Bytes → Type 0) (law : IsBackend d.backend Holds)
    (codec_law : IsCodec d.codec d.encoder d.config)
    (single : d.config.interop_mode ≡ true → d.encoder.tenant_extractor ≡ none)
    (answer : K → V) where
  codec-Encodes : Encodes d.codec d.config answer d.backend Holds law d.encoder
  codec-Encodes v args key b right stored w read =
      same (
        sym (serialize-deserialize d.codec d.encoder d.config codec_law v args key b single stored)
        ∙ read)
      ∙ right
    where
      same : value v ≡ value w → w ≡ v
      same e = ground arith

  -- For a backend that gives back only what it was given, a serializer and a cipher that take back what
  -- they give, no extractor of tenants in interop mode, and a function whose result is determined by
  -- the key of its arguments: from a state whose entries are answers to their keys, over any sequence
  -- of calls and invalidations, with any failures and at any times, each call has one outcome. A value
  -- that it returns is the function's for its arguments. An exception is the function's own, of its
  -- first execution in this call, or of the second after a `BackendError` of the first; or an
  -- authentication error, with `fail_closed` set, where L1 or the backend gave bytes for the call's key
  -- that fail their authentication; or a keyring error, where they gave bytes that the keyring cannot
  -- read; or an interop rejection, in interop mode or for a
  -- value that the encoder rejects. So a call whose function returns, and that meets none of these
  -- causes, returns the function's value.
  pub cached-Refines :
      (f : A → V) (requests : List (Request K V A)) (st : State K S)
      → AllHonest f answer requests
      → IsSound dec d Holds answer st
      → Refines dec d f st requests (run dec d requests st).1
  cached-Refines f requests st honest h =
      run-Refines dec d Holds law answer f codec-Encodes requests st honest h
