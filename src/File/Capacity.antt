-- ===== src/File/Capacity.antt =====
-- src/cachekit/backends/file/backend.py: what `_maybe_evict` leaves.
use cachekit_py.Common.{
  ℕ, ◌+◌, ◌-◌, ◌*◌, ◌≤◌, Bool, true, false, [], ◌∷◌, none, some, leb, length, if_neg, ◌≡◌, ◌≢◌,
  refl, sym, ◌∙◌, arith, inl, inr, Bool-cases,
}
use cachekit_py.OrderedDict
use cachekit_py.OrderedDict.{OrderedDict, total}
use cachekit_py.OrderedDict.Laws.{IsDistinct, get-pop, pop-IsDistinct, total-pop, length-total}
use cachekit_py.File.{File, FileConfig}
use cachekit_py.File.Writes.{
  size_of, insert_by_mtime, sort_by_mtime, at_target, is_triggered, evict_oldest, maybe_evict,
  megabyte, WriteFaults, complete, calculate_cache_size,
}
use cachekit_py.File.Doubles.{target_bound, count_target_bound, trigger_bound, count_trigger_bound}

module _ {P : Type 0} (dec : Discrete P) where
  -- sorting changes the order and nothing that a read or a sum can see
  total-insert :
      (f : File → ℕ) (x : P × File) (d : OrderedDict P File)
      → total f (insert_by_mtime x d) ≡ f x.1 + total f d
  unfolding total
  total-insert f x [] = refl
  total-insert f x (y ∷ ys) = ground (arith, total-insert f x ys)

  get-insert :
      (x : P × File) (q : P) (d : OrderedDict P File)
      → OrderedDict.get dec x.0 d ≡ none
      → OrderedDict.get dec q (insert_by_mtime x d) ≡ OrderedDict.get dec q (x ∷ d)
  unfolding OrderedDict.get
  get-insert x q [] h = refl
  get-insert x q (y ∷ ys) h = ground (arith, get-insert x q ys)

  insert-IsDistinct :
      (x : P × File) (d : OrderedDict P File)
      → OrderedDict.get dec x.0 d ≡ none
      → IsDistinct dec d
      → IsDistinct dec (insert_by_mtime x d)
  unfolding OrderedDict.get
  insert-IsDistinct x [] h g = (h, g)
  insert-IsDistinct x (y ∷ ys) h g =
      let absent : OrderedDict.get dec x.0 ys ≡ none = ground arith in
      let apart : OrderedDict.get dec y.0 (insert_by_mtime x ys) ≡ none =
        ground (arith, get-insert x y.0 ys) in
      elim (Bool-cases (leb (x.1).mtime (y.1).mtime)) [
        | inl q ↦ rw q (h, g)
        | inr q ↦ rw q (apart, insert-IsDistinct x ys absent g.1)
      ]

  total-sort : (f : File → ℕ) (d : OrderedDict P File) → total f (sort_by_mtime d) ≡ total f d
  unfolding total sort_by_mtime
  total-sort f [] = refl
  total-sort f ((p, file) ∷ d) =
      total-insert f (p, file) (sort_by_mtime d) ∙ ground (arith, total-sort f d)

  -- the keys stay distinct, and a read sees the same
  abbrev SortedRight : OrderedDict P File → Type 0
  SortedRight d =
      IsDistinct dec (sort_by_mtime d)
      × ((q : P) → OrderedDict.get dec q (sort_by_mtime d) ≡ OrderedDict.get dec q d)

  sort-SortedRight : (d : OrderedDict P File) → IsDistinct dec d → SortedRight d
  unfolding sort_by_mtime OrderedDict.get
  sort-SortedRight [] h = (tt, λ q. refl)
  sort-SortedRight ((p, f) ∷ d) h =
      let (g, same) = sort-SortedRight d h.1 in
      let absent : OrderedDict.get dec p (sort_by_mtime d) ≡ none = same p ∙ h.0 in
      (
        insert-IsDistinct (p, f) (sort_by_mtime d) absent g,
        λ q. get-insert (p, f) q (sort_by_mtime d) absent ∙ ground (arith, same q),
      )

module _ {P : Type 0} (dec : Discrete P) (config : FileConfig) where
  -- the sums of the size and of the number of the entries
  abbrev bytes_in : OrderedDict P File → ℕ
  bytes_in d = total size_of d

  abbrev count_in : OrderedDict P File → ℕ
  count_in d = total (λ _. 1) d

  -- the files from the first of `rest` on are those of the directory
  Covers : OrderedDict P File → OrderedDict P File → Type 0
  Covers rest files =
      IsDistinct dec rest
      × IsDistinct dec files
      × (bytes_in files ≡ bytes_in rest)
      × (count_in files ≡ count_in rest)
      × ((q : P) (f : File)
          → OrderedDict.get dec q rest ≡ some f
          → OrderedDict.get dec q files ≡ some f)

  other_file :
      (p q : P) (f g : File) (rest files : OrderedDict P File)
      → OrderedDict.get dec p rest ≡ none
      → OrderedDict.get dec q rest ≡ some g
      → (OrderedDict.get dec q ((p, f) ∷ rest) ≡ some g → OrderedDict.get dec q files ≡ some g)
      → OrderedDict.get dec q (OrderedDict.pop dec p files) ≡ some g
  unfolding OrderedDict.get
  other_file p q f g rest files absent found same =
      let apart : p ≢ q = λ e. absurd (ground arith) in
      let kept : OrderedDict.get dec q files ≡ some g = same (rw (if_neg _ apart) found) in
      get-pop dec p q files ∙ rw (if_neg _ apart) kept

  next-Covers :
      (p : P) (f : File) (rest files : OrderedDict P File)
      → Covers ((p, f) ∷ rest) files
      → Covers rest (OrderedDict.pop dec p files)
        × (bytes_in (OrderedDict.pop dec p files) ≡ bytes_in files - size_of f)
        × (count_in (OrderedDict.pop dec p files) ≡ count_in files - 1)
  unfolding Covers OrderedDict.get total
  next-Covers p f rest files (distinct, h, size, count, same) =
      let found : OrderedDict.get dec p files ≡ some f = same p f (ground arith) in
      let less = total-pop dec size_of p f files found h in
      let fewer = total-pop dec (λ _. 1) p f files found h in
      (
        (
          distinct.1,
          pop-IsDistinct dec p files h,
          omega (arith, less, size),
          omega (arith, fewer, count),
          λ q g r. other_file p q f g rest files distinct.0 r (same q g),
        ),
        omega (arith, less),
        omega (arith, fewer),
      )

  -- what the eviction aims at
  abbrev AtTarget : OrderedDict P File → Type 0
  AtTarget d = at_target dec config (bytes_in d) (count_in d) ≡ true

  empty_at_target : at_target dec config 0 0 ≡ true
  empty_at_target = ground arith

  evict-AtTarget :
      (fails_at : P → Bool) (rest files : OrderedDict P File) (size count : ℕ)
      → ((p : P) → fails_at p ≡ false)
      → Covers rest files
      → bytes_in files ≡ size
      → count_in files ≡ count
      → AtTarget (evict_oldest dec config fails_at rest size count files)
  unfolding evict_oldest Covers total
  evict-AtTarget fails_at [] files size count works c s n = rw (c.2, c.3) empty_at_target
  evict-AtTarget fails_at ((p, f) ∷ rest) files size count works c s n =
      elim (Bool-cases (at_target dec config size count)) [
        | inl x ↦ rw x (rw (s, n) x)
        | inr x ↦
            let (next, less, fewer) = next-Covers p f rest files c in
            rw (x, works p)
              (evict-AtTarget fails_at rest (OrderedDict.pop dec p files) (size - size_of f)
                (count - 1) works next (omega (arith, less, s)) (omega (arith, fewer, n)))
      ]

  -- 90 of a hundred of each limit
  abbrev pub InBounds : OrderedDict P File → Type 0
  InBounds d =
      (total size_of d * 10 ≤ config.max_size_mb * megabyte * 9)
      × (length d * 10 ≤ config.max_entry_count * 9)

  -- the limits of `FileBackendConfig`
  pub record IsAccepted : Type 0 where
    pub size_limit : config.max_size_mb ≤ 1000000
    pub count_limit : config.max_entry_count ≤ 1000000

  target_bounds : (d : OrderedDict P File) → IsAccepted → AtTarget d → InBounds d
  target_bounds d limits t = (
    target_bound (total size_of d) config.max_size_mb limits.size_limit (ground arith),
    count_target_bound (length d) config.max_entry_count limits.count_limit
        (ground (arith, length-total d)),
  )

  calm_bounds :
      (d : OrderedDict P File)
      → IsAccepted
      → is_triggered dec config (total size_of d) (length d) ≡ false
      → InBounds d
  calm_bounds d limits t = (
    trigger_bound (total size_of d) config.max_size_mb limits.size_limit (ground arith),
    count_trigger_bound (length d) config.max_entry_count limits.count_limit (ground arith),
  )

  -- `_maybe_evict` under an accepted configuration, on files with different paths, where the listings see
  -- every file and every file can be unlinked, leaves at most 90 of a hundred of `max_size_mb` in
  -- bytes, and at most 90 of a hundred of `max_entry_count` entries.
  pub maybe_evict_bounds :
      (faults : WriteFaults P) (files : OrderedDict P File)
      → IsAccepted
      → ((p : P) → faults.unlink_fails p ≡ false)
      → faults.size_listing ≡ complete
      → faults.evict_listing ≡ complete
      → IsDistinct dec files
      → InBounds (maybe_evict dec config faults files)
  unfolding maybe_evict calculate_cache_size Covers
  maybe_evict_bounds faults files limits works sizes listed h =
      let size = total size_of files in
      let count = length files in
      elim (Bool-cases (is_triggered dec config size count)) [
        | inl x ↦
            rw (sizes, listed, x)
              (target_bounds
                (evict_oldest dec config faults.unlink_fails (sort_by_mtime files) size count files)
                limits
                (evict-AtTarget faults.unlink_fails (sort_by_mtime files) files size count works
                  covers refl (length-total files)))
        | inr x ↦ rw (sizes, x) (calm_bounds files limits x)
      ]
    where
      sorted : SortedRight dec files
      sorted = sort-SortedRight dec files h

      covers : Covers (sort_by_mtime files) files
      covers = (
        sorted.0,
        h,
        sym (total-sort dec size_of files),
        sym (total-sort dec (λ _. 1) files),
        λ q f p. sym (sorted.1 q) ∙ p,
      )
