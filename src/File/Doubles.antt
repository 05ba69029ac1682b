-- ===== src/File/Doubles.antt =====
-- The products of a limit with `EVICTION_TRIGGER_THRESHOLD` and `EVICTION_TARGET_THRESHOLD` of
-- src/cachekit/backends/file/backend.py, as the doubles they are: the numerator over `2 ^ 53`. The limits
-- are at most a million (src/cachekit/backends/file/config.py), for which 64 doublings find the unit.
use cachekit_py.Common.{
  ℕ, zero, suc, ◌+◌, ◌*◌, ◌/◌, ◌%◌, ◌≤◌, leb, ltb, if◌then◌else◌, ◌≡◌, ◌⊎◌, inl, inr, refl, arith,
  Bool-cases,
}
use native.Mathlib.Nat.{div-mul-le_self, mul-le-mul_right, add-mul}

-- the unit in the last place next to `v`: the power of two that leaves 53 bits of it
unfoldable pub ulp_from : ℕ → ℕ → ℕ → ℕ
ulp_from zero v ulp = ulp
ulp_from (suc fuel) v ulp =
    let rest = ulp_from fuel v (ulp * 2) in if leb (9007199254740992 * ulp) v then rest else ulp

-- the nearest multiple, the even one of two
abbrev pub nearest : ℕ → ℕ → ℕ
nearest v ulp =
    if ltb (v % ulp * 2) ulp
    then v / ulp
    else if ltb ulp (v % ulp * 2)
    then v / ulp + 1
    else v / ulp + v / ulp % 2

unfoldable pub times : ℕ → ℕ → ℕ
unfolding ulp_from
times factor m = let v = factor * m in let ulp = ulp_from 64 v 1 in nearest v ulp * ulp

-- `0.7` and `0.9`
abbrev pub seven_tenths : ℕ
seven_tenths = 6305039478318694

abbrev pub nine_tenths : ℕ
nine_tenths = 8106479329266893

-- the unit is one, or small against the number
abbrev IsUlp : ℕ → ℕ → Type 0
IsUlp v ulp = (ulp ≡ 1) ⊎ (4503599627370496 * ulp ≤ v)

ulp_from-IsUlp : (fuel v ulp : ℕ) → IsUlp v ulp → IsUlp v (ulp_from fuel v ulp)
unfolding ulp_from
ulp_from-IsUlp zero v ulp h = h
ulp_from-IsUlp (suc fuel) v ulp h = elim (Bool-cases (leb (9007199254740992 * ulp) v)) [
  | inl q ↦
      let more : 4503599627370496 * (ulp * 2) ≤ v = ground arith in
      rw q (ulp_from-IsUlp fuel v (ulp * 2) (inr more))
  | inr q ↦ rw q h
]

nearest_bound : (v ulp : ℕ) → nearest v ulp ≤ v / ulp + 1
nearest_bound v ulp = ground arith

-- the product is at most one unit above the exact one
times_bound :
    (factor m : ℕ) → (ulp : ℕ) × IsUlp (factor * m) ulp × (times factor m ≤ factor * m + ulp)
unfolding times
times_bound factor m =
    let v = factor * m in
    let ulp = ulp_from 64 v 1 in (ulp, ulp_from-IsUlp 64 v 1 (inl refl), product v ulp)
  where
    product : (v ulp : ℕ) → nearest v ulp * ulp ≤ v + ulp
    product v ulp =
        let below : nearest v ulp * ulp ≤ (v / ulp + 1) * ulp =
          mul-le-mul_right ulp (nearest_bound v ulp) in
        omega (arith, below, div-mul-le_self v ulp, add-mul (v / ulp) 1 ulp)

-- Within a million, the exact number of tenths bounds what a double bounds: an integer that is not above
-- nine tenths as a double, in units of `2 ^ 33`, is not above nine tenths.
pub trigger_bound :
    (n m : ℕ) → m ≤ 1000000 → n * 8589934592 ≤ times nine_tenths m → n * 10 ≤ m * 1048576 * 9
trigger_bound n m h p =
    let (ulp, small, q) = times_bound nine_tenths m in
    elim small [ inl e ↦ omega (arith, q, e, p) | inr e ↦ omega (arith, q, e, p) ]

pub count_trigger_bound :
    (n m : ℕ) → m ≤ 1000000 → n * 9007199254740992 ≤ times nine_tenths m → n * 10 ≤ m * 9
count_trigger_bound n m h p =
    let (ulp, small, q) = times_bound nine_tenths m in
    elim small [ inl e ↦ omega (arith, q, e, p) | inr e ↦ omega (arith, q, e, p) ]

pub target_bound :
    (n m : ℕ) → m ≤ 1000000 → n * 8589934592 ≤ times seven_tenths m → n * 10 ≤ m * 1048576 * 9
target_bound n m h p =
    let (ulp, small, q) = times_bound seven_tenths m in
    elim small [ inl e ↦ omega (arith, q, e, p) | inr e ↦ omega (arith, q, e, p) ]

pub count_target_bound :
    (n m : ℕ) → m ≤ 1000000 → n ≤ times seven_tenths m / 9007199254740992 → n * 10 ≤ m * 9
count_target_bound n m h p =
    let (ulp, small, q) = times_bound seven_tenths m in
    elim small [ inl e ↦ omega (arith, q, e, p) | inr e ↦ omega (arith, q, e, p) ]
