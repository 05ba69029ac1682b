-- ===== src/ObjectCache/State.antt =====
-- The state of the object cache, and its constructor. Times are whole ticks, `second` of them to a
-- second; the threshold ratio and the jitter are parts of `scale`.
use cachekit_py.Common.{
  ℕ, Bool, false, ◌&&◌, ◌==◌, List, [], Option, none, some, ltb, leb, is_some, not, if◌then◌else◌,
}
use cachekit_py.OrderedDict.{OrderedDict}

-- ticks to a second, and parts to the whole
abbrev pub second : ℕ
second = 1000

abbrev pub scale : ℕ
scale = 1000

pub record Entry (V : Type 0) : Type 0 where
  pub value : V
  pub expires_at : ℕ
  pub cached_at : ℕ
  pub size_bytes : ℕ
  pub generation : ℕ

pub record ObjectCache (K V : Type 0) : Type 0 where
  pub max_entries : Option ℕ
  pub max_size_bytes : Option ℕ
  pub swr_threshold_ratio : ℕ
  pub store : OrderedDict K (Entry V)
  pub hits : ℕ
  pub misses : ℕ
  pub current_size_bytes : ℕ
  pub refreshing : List (K × ℕ)
  pub generation : ℕ

-- the `ValueError`s
pub data ValueError : Type 0 where
  no_bound entries_below_one bytes_below_one ratio_out_of_range bad_ttl : ValueError

pub data Result (A : Type 0) : Type 0 where
  ok : A → Result A
  raise : ValueError → Result A

-- `ttl` is a float: NaN and the infinities are one value, and a negative one is below a second.
pub data Ttl : Type 0 where
  finite : ℕ → Ttl
  non_finite : Ttl

abbrev pub below_one : Option ℕ → Bool
below_one none = false
below_one (some n) = ltb n 1

unfoldable pub init : {K V : Type 0} → Option ℕ → Option ℕ → ℕ → Result (ObjectCache K V)
init max_entries max_size_bytes ratio =
    if not (is_some max_entries) && not (is_some max_size_bytes)
    then raise no_bound
    else if below_one max_entries
    then raise entries_below_one
    else if below_one max_size_bytes
    then raise bytes_below_one
    else if not (ltb 0 ratio && leb ratio scale)
    then raise ratio_out_of_range
    else ok (record {
      max_entries = max_entries;
      max_size_bytes = max_size_bytes;
      swr_threshold_ratio = ratio;
      store = [];
      hits = 0;
      misses = 0;
      current_size_bytes = 0;
      refreshing = [];
      generation = 0;
    })

-- What `get_with_swr` returns.
pub record SwrRead (V : Type 0) : Type 0 where
  pub found : Option V
  pub needs_refresh : Bool
  pub version : ℕ

abbrev pub swr_miss : {V : Type 0} → SwrRead V
swr_miss = record { found = none; needs_refresh = false; version = 0 }

-- the tests against a bound that may be absent
abbrev pub at_least : ℕ → Option ℕ → Bool
at_least n none = false
at_least n (some m) = leb m n

abbrev pub more_than : ℕ → Option ℕ → Bool
more_than n none = false
more_than n (some m) = ltb m n

abbrev pub is_owner : Option ℕ → ℕ → Bool
is_owner none version = false
is_owner (some g) version = g == version
