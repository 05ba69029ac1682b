-- ===== src/L1Cache/Evict.antt =====
-- `_evict_for_space` of the L1 cache: what the scan takes off, and that enough is free after it.
use cachekit_py.Common.{
  ℕ, suc, ◌+◌, ◌≡◌, ◌⊎◌, ap, ◌∙◌, refl, true, List, [], ◌∷◌, none, arith, inl, inr, Bool-cases,
  drop, sym,
}
use cachekit_py.Common.Int.{ℤ, pos, pos_part, neg_part, ◌+ℤ◌, ◌-ℤ◌, leb_ℤ, int_laws}
use cachekit_py.OrderedDict
use cachekit_py.OrderedDict.{OrderedDict, total}
use cachekit_py.OrderedDict.Laws.{IsDistinct, pop_absent}
use cachekit_py.L1Cache.State.{CacheEntry, L1Cache, evict_for_space, evict_scan, pop_all}
use cachekit_py.L1Cache.Exact.{size_of}

take_off :
    (current missing : ℤ) (a b : ℕ)
    → current +ℤ missing ≡ pos (a + b)
    → current -ℤ pos a +ℤ missing ≡ pos b
take_off current missing a b s = omega (int_laws, ap pos_part s, ap neg_part s)

pop_first :
    {K : Type 0} (dec : Discrete K) (k : K) (e : CacheEntry) (d : OrderedDict K CacheEntry)
    → OrderedDict.get dec k d ≡ none
    → OrderedDict.pop dec k ((k, e) ∷ d) ≡ d
unfolding OrderedDict.pop
pop_first dec k e d h = ground (arith, pop_absent dec k d h)

module _ {K : Type 0} (dec : Discrete K) (limit needed : ℕ) where
  -- The scan takes a prefix of the entries off. Where the count is short of the sum by `missing`, it
  -- is so afterwards.
  pub record Scanned (d : OrderedDict K CacheEntry) (missing : ℤ) (r : ℤ × ℕ × List K)
      : Type 0 where
    pub taken : ℕ
    pub left : pop_all dec r.2 d ≡ drop taken d
    pub short : r.0 +ℤ missing ≡ pos (total size_of (drop taken d))
    pub enough : (leb_ℤ (r.0 +ℤ pos needed) (pos limit) ≡ true) ⊎ (drop taken d ≡ [])

  scan-Scanned :
      (d : OrderedDict K CacheEntry) (missing current : ℤ) (evictions : ℕ)
      → IsDistinct dec d
      → current +ℤ missing ≡ pos (total size_of d)
      → Scanned d missing (evict_scan limit needed d current evictions)
  unfolding evict_scan pop_all
  scan-Scanned [] missing current evictions h s = record {
    taken = 0;
    left = refl;
    short = s;
    enough = inr refl;
  }
  scan-Scanned ((k, e) ∷ d) missing current evictions h s =
      let r = evict_scan limit needed d (current -ℤ pos e.size_bytes) (evictions + 1) in
      let s' : current -ℤ pos e.size_bytes +ℤ missing ≡ pos (total size_of d) =
        take_off current missing _ _ (unfold total in s) in
      let rest = scan-Scanned d missing (current -ℤ pos e.size_bytes) (evictions + 1) h.1 s' in
      elim (Bool-cases (leb_ℤ (current +ℤ pos needed) (pos limit))) [
        | inl fits ↦ rw fits (record { taken = 0; left = refl; short = s; enough = inl fits })
        | inr full ↦ rw full (record {
          taken = suc rest.taken;
          left = ap (pop_all dec r.2) (pop_first dec k e d h.0) ∙ rest.left;
          short = rest.short;
          enough = rest.enough;
        })
      ]

-- What `_evict_for_space` leaves: a suffix of the entries, a count as far short of their sum as it was
-- before, and the pending write fits the count, or nothing is left.
pub record Evicted {K : Type 0} (needed : ℕ) (missing : ℤ) (c d : L1Cache K) : Type 0 where
  pub taken : ℕ
  pub left : d.cache ≡ drop taken c.cache
  pub short : d.current_memory_bytes +ℤ missing ≡ pos (total size_of d.cache)
  pub enough :
      (leb_ℤ (d.current_memory_bytes +ℤ pos needed) (pos c.max_memory_bytes) ≡ true)
      ⊎ (d.cache ≡ [])
  pub same_limit : d.max_memory_bytes ≡ c.max_memory_bytes

pub evict-Evicted :
    {K : Type 0} (dec : Discrete K) (needed : ℕ) (missing : ℤ) (c : L1Cache K)
    → IsDistinct dec c.cache
    → c.current_memory_bytes +ℤ missing ≡ pos (total size_of c.cache)
    → Evicted needed missing c (evict_for_space dec needed c)
unfolding evict_for_space
evict-Evicted dec needed missing c h s =
    elim (Bool-cases (leb_ℤ (c.current_memory_bytes +ℤ pos needed) (pos c.max_memory_bytes))) [
      | inl fits ↦
          rw fits
            (record { taken = 0; left = refl; short = s; enough = inl fits; same_limit = refl })
      | inr full ↦
          let r =
            scan-Scanned dec c.max_memory_bytes needed c.cache missing c.current_memory_bytes
              c.evictions h s in
          rw full (record {
            taken = r.taken;
            left = r.left;
            short = r.short ∙ ap (λ d. pos (total size_of d)) (sym r.left);
            enough = elim r.enough [ inl e ↦ inl e | inr e ↦ inr (r.left ∙ e) ];
            same_limit = refl;
          })
    ]
