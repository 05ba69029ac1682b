-- ===== src/Wrapper/Refines.antt =====
-- Sequences of calls and invalidations of one decorated function (src/cachekit/decorators/wrapper.py),
-- against the function without a cache.
use cachekit_py.Common.{Bool-cases, inl, inr, List, [], ◌∷◌, Option, none, some, ◌≡◌, refl}
use cachekit_py.L1Cache.State.{L1Cache}
use cachekit_py.L1Cache.Entries.{invalidate-Every}
use cachekit_py.Handler.{Bytes}
use cachekit_py.Handler.Backend.{IsBackend, succeeded}
use cachekit_py.Handler.Faithful.{IsFaithful, Encodes}
use cachekit_py.Wrapper.{Outcome, Decorator, Call, State}
use cachekit_py.Wrapper.Calls.{sync_wrapper}
use cachekit_py.Wrapper.Invalidate.{
  drop_l1, invalidate_key, invalidate_next, invalidate_keys, invalidate_all,
}
use cachekit_py.Wrapper.Endings.{sync_wrapper-Ends}
use cachekit_py.Wrapper.Justified.{Allows, Ending-Allows}
use cachekit_py.Wrapper.Values.{IsHonest, L1Faithful, IsSound, sync_wrapper-IsSound}

pub data Request (K V A : Type 0) : Type 0 where
  invoke : Call K V A → Request K V A
  invalidate_one : K → Request K V A
  invalidate_cached : Request K V A

module _ {K V A S : Type 0} (dec : Discrete K) (d : Decorator K V A S) where
  -- the state after the requests, and what the calls among them gave
  unfoldable pub run : List (Request K V A) → State K S → State K S × List (Outcome V)
  run [] st = (st, [])
  run (invoke c ∷ requests) st =
      let p = sync_wrapper dec d c st in let q = run requests p.0 in (q.0, p.1 ∷ q.1)
  run (invalidate_one key ∷ requests) st = run requests (invalidate_key dec d.backend key st)
  run (invalidate_cached ∷ requests) st = run requests (invalidate_all dec d.backend st)

-- The outcomes are, in order, one for each call: the function's value for its arguments, or an exception
-- of the function, or one of the cache with its cause in the state where the call starts.
abbrev pub Refines :
    {K V A S : Type 0}
    → Discrete K
    → Decorator K V A S
    → (A → V)
    → State K S
    → List (Request K V A)
    → List (Outcome V)
    → Type 0
Refines dec d f st [] [] = Unit
Refines dec d f st [] (o ∷ outcomes) = ⊥
Refines dec d f st (invoke c ∷ requests) [] = ⊥
Refines dec d f st (invoke c ∷ requests) (o ∷ outcomes) =
    Allows dec d c st f o.result × Refines dec d f (sync_wrapper dec d c st).0 requests outcomes
Refines dec d f st (invalidate_one key ∷ requests) outcomes =
    Refines dec d f (invalidate_key dec d.backend key st) requests outcomes
Refines dec d f st (invalidate_cached ∷ requests) outcomes =
    Refines dec d f (invalidate_all dec d.backend st) requests outcomes

abbrev pub AllHonest : {K V A : Type 0} → (A → V) → (K → V) → List (Request K V A) → Type 0
AllHonest f answer [] = Unit
AllHonest f answer (invoke c ∷ requests) = IsHonest f answer c × AllHonest f answer requests
AllHonest f answer (invalidate_one key ∷ requests) = AllHonest f answer requests
AllHonest f answer (invalidate_cached ∷ requests) = AllHonest f answer requests

module _ {K V A S : Type 0} (dec : Discrete K) (d : Decorator K V A S)
    (Holds : S → K → Bytes → Type 0) (law : IsBackend d.backend Holds) (answer : K → V) where
  drop_l1-Faithful :
      (key : K) (l1 : Option (L1Cache K)) (st : State K S)
      → st.l1_cache ≡ l1
      → L1Faithful dec d Holds answer l1
      → L1Faithful dec d Holds answer (drop_l1 dec d.backend key st).l1_cache
  drop_l1-Faithful key none st e h = rw e tt
  drop_l1-Faithful key (some c) st e h =
      rw e (invalidate-Every dec (IsFaithful d.codec d.config answer) key c h)

  -- without an entry of L1, and with what the backend's deletion leaves
  invalidate_key-IsSound :
      (key : K) (st : State K S)
      → IsSound dec d Holds answer st
      → IsSound dec d Holds answer (invalidate_key dec d.backend key st)
  unfolding invalidate_key
  invalidate_key-IsSound key st h = (
    λ j b held. h.0 j b (law.delete_keeps key (st.store).backend_state j b held),
    drop_l1-Faithful key st.l1_cache st refl h.1,
  )

  invalidate_next-IsSound :
      (key : K) (st : State K S)
      → IsSound dec d Holds answer st
      → IsSound dec d Holds answer (invalidate_next dec d.backend key st)
  unfolding invalidate_next
  invalidate_next-IsSound key st h =
      let left =
        λ (j : K) (b : Bytes) (held : Holds (d.backend.delete key (st.store).backend_state).0 j b).
          h.0 j b (law.delete_keeps key (st.store).backend_state j b held) in
      let l1 = drop_l1-Faithful key st.l1_cache st refl h.1 in
      elim (Bool-cases (succeeded (d.backend.delete key (st.store).backend_state).1)) [
        | inl q ↦ rw q (left, l1)
        | inr q ↦ rw q (left, l1)
      ]

  invalidate_keys-IsSound :
      (keys : List K) (st : State K S)
      → IsSound dec d Holds answer st
      → IsSound dec d Holds answer (invalidate_keys dec d.backend keys st)
  unfolding invalidate_keys
  invalidate_keys-IsSound [] st h = h
  invalidate_keys-IsSound (key ∷ keys) st h =
      invalidate_keys-IsSound keys (invalidate_next dec d.backend key st)
        (invalidate_next-IsSound key st h)

  -- the runs, with what is asked of the encoder as a hypothesis
  pub run-Refines :
      (f : A → V)
      → Encodes d.codec d.config answer d.backend Holds law d.encoder
      → (requests : List (Request K V A)) (st : State K S) → AllHonest f answer requests
      → IsSound dec d Holds answer st
      → Refines dec d f st requests (run dec d requests st).1
  unfolding run invalidate_all
  run-Refines f encodes [] st honest h = tt
  run-Refines f encodes (invoke c ∷ requests) st honest h =
      let p = sync_wrapper-IsSound dec d Holds answer law encodes f c honest.0 st h in
      (
        Ending-Allows dec d c st f (sync_wrapper dec d c st).1 (sync_wrapper-Ends dec d c st) p.1,
        run-Refines f encodes requests (sync_wrapper dec d c st).0 honest.1 p.0,
      )
  run-Refines f encodes (invalidate_one key ∷ requests) st honest h =
      run-Refines f encodes requests (invalidate_key dec d.backend key st) honest
        (invalidate_key-IsSound key st h)
  run-Refines f encodes (invalidate_cached ∷ requests) st honest h =
      run-Refines f encodes requests (invalidate_all dec d.backend st) honest
        (invalidate_keys-IsSound st.cached_keys st h)
