-- ===== src/Random.antt =====
-- embkv/include/common/util/random.h: the generator of the random delays. An uint32_t is a number
-- below 2 ^ 32, an int32_t of the range that is used a natural number.
pub mod Range
pub mod State
use Prim.Native.Nat.{bit_xor}
use embkv.Base.{ℕ, zero, suc, ◌+◌, ◌-◌, ◌*◌, ◌/◌, ◌%◌, ◌^◌, Option, none, some, leb, if◌then◌else◌}

abbrev pub u32_mod : ℕ
u32_mod = 2 ^ 32

-- FastRand
pub record FastRand : Type 0 where
  pub one : ℕ
  pub two : ℕ

-- The two rounds of mixing: `s1 ^= s1 << 17` and `s1 ^ s0 ^ s1 >> 7 ^ s0 >> 16`.
unfoldable pub shift_mix : ℕ → ℕ
shift_mix s1 = bit_xor s1 (s1 * 2 ^ 17 % u32_mod)

unfoldable pub next_two : ℕ → ℕ → ℕ
next_two s1 s0 = bit_xor (bit_xor (bit_xor s1 s0) (s1 / 2 ^ 7)) (s0 / 2 ^ 16)

-- The number, and the generator after it.
unfoldable pub fastrand : FastRand → ℕ × FastRand
unfolding shift_mix next_two
fastrand g =
    let two = next_two (shift_mix g.one) g.two in
    ((g.two + two) % u32_mod, record { one = g.two; two = two })

-- `(-n) % n` on uint32_t
unfoldable pub threshold_of : ℕ → ℕ
threshold_of n = (u32_mod - n) % n

-- The loop, with a bound on the number of draws: none where they are not enough.
unfoldable pub draw : ℕ → ℕ → FastRand → Option (ℕ × FastRand)
draw zero n g = none
draw (suc fuel) n g =
    let (r, g') = fastrand g in
    let rest = draw fuel n g' in if leb (threshold_of n) r then some (r % n, g') else rest

unfoldable pub fastrand_n : ℕ → ℕ → FastRand → Option (ℕ × FastRand)
unfolding draw
fastrand_n fuel n g = draw fuel n g

-- For 0 ≤ min ≤ max.
unfoldable pub rand_range : ℕ → ℕ → ℕ → FastRand → Option (ℕ × FastRand)
unfolding fastrand_n
rand_range fuel min max g = elim (fastrand_n fuel (max - min + 1) g) [
  | none ↦ none
  | some (k, g') ↦ some (min + k, g')
]
