-- ===== src/L1Cache/Budget.antt =====
-- The budget of the caches of src/cachekit/l1_cache.py under the registry: no call changes it, and the
-- first configuration of a namespace wins.
use cachekit_py.Common.{
  ℕ, ◌*◌, Bool, List, [], ◌∷◌, Option, none, some, ◌≡◌, refl, ap, ◌∙◌, sym, arith, inl, inr,
  Option-cases, Bool-cases, ltb, length, if_pos, if_neg, ◌≢◌,
}
use cachekit_py.Common.Int.{ℤ, leb_ℤ}
use cachekit_py.OrderedDict
use cachekit_py.OrderedDict.{OrderedDict}
use cachekit_py.OrderedDict.Laws.{get-set}
use cachekit_py.L1Cache.State.{
  L1Cache, init, Float, finite, non_finite, remove_entry, evict_for_space,
}
use cachekit_py.L1Cache.Calls.{
  bytes, other_buffer, get, put, put_bytes, invalidate, clear, remove_expired, cleanup_expired,
  store_entry,
}
use cachekit_py.L1Cache.Run.{
  Call, get_call, put_call, invalidate_call, clear_call, cleanup_call, step,
}
use cachekit_py.L1Cache.Manager.{
  L1CacheManager, budget_of, map_values, get_cache, call_cache, cleanup_round, clear_all,
  set_cleanup,
}

limit-remove_entry :
    {K : Type 0} (dec : Discrete K) (k : K) (c : L1Cache K)
    → (remove_entry dec k c).max_memory_bytes ≡ c.max_memory_bytes
unfolding remove_entry
limit-remove_entry dec k c = elim (Option-cases (OrderedDict.get dec k c.cache)) [
  | inl p ↦ rw p refl
  | inr (e, p) ↦ rw p refl
]

pub limit-remove_expired :
    {K : Type 0} (dec : Discrete K) (keys : List K) (c : L1Cache K)
    → (remove_expired dec keys c).max_memory_bytes ≡ c.max_memory_bytes
unfolding remove_expired
limit-remove_expired dec [] c = refl
limit-remove_expired dec (k ∷ keys) c = limit-remove_expired dec keys _ ∙ limit-remove_entry dec k c

limit-evict :
    {K : Type 0} (dec : Discrete K) (n : ℕ) (c : L1Cache K)
    → (evict_for_space dec n c).max_memory_bytes ≡ c.max_memory_bytes
unfolding evict_for_space
limit-evict dec n c = ground arith

limit-get :
    {K : Type 0} (dec : Discrete K) (k : K) (now : ℤ) (c : L1Cache K)
    → (get dec k now c).0.max_memory_bytes ≡ c.max_memory_bytes
unfolding get
limit-get dec k now c = ground (arith, limit-remove_entry dec k c)

limit-put_bytes :
    {K : Type 0} (dec : Discrete K) (k : K) (v : List ℕ) (now : ℤ) (expiry : Float) (c : L1Cache K)
    → (put_bytes dec k v now expiry c).max_memory_bytes ≡ c.max_memory_bytes
unfolding put_bytes store_entry
limit-put_bytes dec k v now non_finite c = refl
limit-put_bytes dec k v now (finite t) c = elim (Bool-cases (leb_ℤ t now)) [
  | inl p ↦ rw p refl
  | inr p ↦ elim (Bool-cases (ltb c.max_memory_bytes (length v))) [
    | inl q ↦ rw (p, q) (limit-remove_entry dec k c)
    | inr q ↦
        rw (p, q)
          (limit-evict dec (length v) _ ∙ elim (Option-cases (OrderedDict.get dec k c.cache)) [
            | inl r ↦ rw r refl
            | inr (e, r) ↦ rw r refl
          ])
  ]
]

pub limit-step :
    {K : Type 0} (dec : Discrete K) (call : Call K) (c : L1Cache K)
    → (step dec call c).max_memory_bytes ≡ c.max_memory_bytes
unfolding step put invalidate clear cleanup_expired
limit-step dec (get_call k now) c = limit-get dec k now c
limit-step dec (put_call k (bytes v) now r e) c = limit-put_bytes dec k v now _ c
limit-step dec (put_call k other_buffer now r e) c = refl
limit-step dec (invalidate_call k) c = limit-remove_entry dec k c
limit-step dec clear_call c = refl
limit-step dec (cleanup_call now) c = limit-remove_expired dec _ c

pub data ManagerCall (N K : Type 0) : Type 0 where
  get_cache_call : ℤ → N → Option ℕ → ManagerCall N K
  on_cache : N → Call K → ManagerCall N K
  cleanup_pass : (N → ℤ) → ManagerCall N K
  clear_all_call : ManagerCall N K
  cleanup_switch : Bool → ManagerCall N K

module _ {N K : Type 0} (dec_name : Discrete N) (dec : Discrete K) where
  unfoldable pub manager_step : ManagerCall N K → L1CacheManager N K → L1CacheManager N K
  manager_step (get_cache_call buffer name mb) m = get_cache dec_name dec buffer name mb m
  manager_step (on_cache name call) m = call_cache dec_name dec name call m
  manager_step (cleanup_pass clock) m = cleanup_round dec_name dec clock m
  manager_step clear_all_call m = clear_all dec_name dec m
  manager_step (cleanup_switch running) m = set_cleanup dec_name dec running m

  unfoldable pub manager_run : List (ManagerCall N K) → L1CacheManager N K → L1CacheManager N K
  manager_run [] m = m
  manager_run (call ∷ calls) m = manager_run calls (manager_step call m)

  -- the namespace has a cache with this budget, in bytes
  abbrev pub HasBudget : N → ℕ → L1CacheManager N K → Type 0
  HasBudget name size m =
      (c : L1Cache K) × (OrderedDict.get dec_name name m.caches ≡ some c)
      × (c.max_memory_bytes ≡ size)

  get-set_same :
      (n : N) (c : L1Cache K) (d : OrderedDict N (L1Cache K))
      → OrderedDict.get dec_name n (OrderedDict.set dec_name n c d) ≡ some c
  get-set_same n c d = rw (get-set dec_name n n c d) (if_pos (dec_name n n) refl _ _)

  get-set_other :
      (n j : N) (c : L1Cache K) (d : OrderedDict N (L1Cache K))
      → n ≢ j
      → OrderedDict.get dec_name j (OrderedDict.set dec_name n c d) ≡ OrderedDict.get dec_name j d
  get-set_other n j c d p = rw (get-set dec_name n j c d) (if_neg (dec_name n j) p _ _)

  get-map_values :
      (f : N → L1Cache K → L1Cache K) (name : N) (d : OrderedDict N (L1Cache K)) (c : L1Cache K)
      → OrderedDict.get dec_name name d ≡ some c
      → (n : N) × (OrderedDict.get dec_name name (map_values f d) ≡ some (f n c))
  unfolding map_values OrderedDict.get
  get-map_values f name [] c h = absurd (cc h)
  get-map_values f name ((n, v) ∷ d) c h = elim (dec_name n name) [
    | yes p ↦
        let e : v ≡ c = cc (sym (if_pos (dec_name n name) p (some v) _) ∙ h) in
        (n, rw (if_pos _ p) (ap (λ w. some (f n w)) e))
    | no p ↦
        let (i, e) = get-map_values f name d c (sym (if_neg (dec_name n name) p (some v) _) ∙ h) in
        (i, rw (if_neg _ p) e)
  ]

  other_name :
      {c : L1Cache K} (other name : N) (d : OrderedDict N (L1Cache K))
      → OrderedDict.get dec_name other d ≡ none
      → OrderedDict.get dec_name name d ≡ some c
      → other ≢ name
  other_name other name d q h p = cc (p, q, h)

  step-HasBudget :
      (call : ManagerCall N K) (name : N) (size : ℕ) (m : L1CacheManager N K)
      → HasBudget name size m
      → HasBudget name size (manager_step call m)
  unfolding manager_step get_cache call_cache cleanup_round clear_all set_cleanup cleanup_expired
      clear
  step-HasBudget (get_cache_call buffer other mb) name size m (c, h, b) =
      elim (Option-cases (OrderedDict.get dec_name other m.caches)) [
        | inl q ↦
            let fresh = init (budget_of mb m.default_max_memory_mb) buffer in
            let d = other_name other name m.caches q h in
            rw q (c, get-set_other other name fresh m.caches d ∙ h, b)
        | inr (x, q) ↦ rw q (c, h, b)
      ]
  step-HasBudget (on_cache other call) name size m (c, h, b) =
      elim (Option-cases (OrderedDict.get dec_name other m.caches)) [
        | inl q ↦ rw q (c, h, b)
        | inr (x, q) ↦
            let y = step dec call x in
            elim (dec_name other name) [
              | yes p ↦
                  let e : x ≡ c = cc (p, q, h) in
                  rw q (
                    y,
                    ap (λ j. OrderedDict.get dec_name j (OrderedDict.set dec_name other y m.caches))
                          (sym p)
                        ∙ get-set_same other y m.caches,
                    limit-step dec call x ∙ ap (λ z. z.max_memory_bytes) e ∙ b,
                  )
              | no p ↦ rw q (c, get-set_other other name y m.caches p ∙ h, b)
            ]
      ]
  step-HasBudget (cleanup_pass clock) name size m (c, h, b) =
      let (n, e) = get-map_values (λ n c. (cleanup_expired dec (clock n) c).0) name m.caches c h in
      (_, e, limit-remove_expired dec _ c ∙ b)
  step-HasBudget clear_all_call name size m (c, h, b) =
      let (n, e) = get-map_values (λ n c. clear dec c) name m.caches c h in (_, e, b)
  step-HasBudget (cleanup_switch running) name size m (c, h, b) = (c, h, b)

  run-HasBudget :
      (calls : List (ManagerCall N K)) (name : N) (size : ℕ) (m : L1CacheManager N K)
      → HasBudget name size m
      → HasBudget name size (manager_run calls m)
  unfolding manager_run
  run-HasBudget [] name size m h = h
  run-HasBudget (call ∷ calls) name size m h =
      run-HasBudget calls name size (manager_step call m) (step-HasBudget call name size m h)

  -- The first configuration of a namespace wins. After `get_cache` for a namespace that has no cache,
  -- and after whatever calls on the registry and on its caches follow, other budgets for the
  -- same namespace among them, its cache has the budget that was asked for first, or the default of the
  -- registry if none was.
  pub first_budget_wins :
      (buffer : ℤ) (name : N) (max_size_mb : Option ℕ) (calls : List (ManagerCall N K))
      (m : L1CacheManager N K)
      → OrderedDict.get dec_name name m.caches ≡ none
      → HasBudget name
          (budget_of max_size_mb m.default_max_memory_mb * 1024 * 1024)
          (manager_run calls (get_cache dec_name dec buffer name max_size_mb m))
  unfolding get_cache init
  first_budget_wins buffer name mb calls m h =
      run-HasBudget calls name _ (get_cache dec_name dec buffer name mb m) (
        rw h
          (init (budget_of mb m.default_max_memory_mb) buffer, get-set_same name _ m.caches, refl))
