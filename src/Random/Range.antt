-- ===== src/Random/Range.antt =====
-- The numbers that rand_range returns.
use native.Mathlib.Nat.{mod-add-div', mod-lt, suc-mul}
use embkv.Base.{
  ℕ, zero, suc, ◌+◌, ◌-◌, ◌*◌, ◌/◌, ◌%◌, ◌≤◌, ◌<◌, ◌≡◌, refl, ◌⊎◌, inl, inr, Option, none, some,
  List, [], ◌∷◌, arith, leb, All, Bool-cases,
}
use embkv.Random.{FastRand, u32_mod, fastrand, draw, fastrand_n, rand_range, threshold_of}

-- The first numbers of the generator.
unfoldable pub draws : ℕ → FastRand → List ℕ
unfolding fastrand
draws zero g = []
draws (suc k) g = (fastrand g).0 ∷ draws k (fastrand g).1

-- What the loop does within a number of draws: it returns a number below the bound, or all draws
-- were below the threshold.
abbrev Draws : ℕ → ℕ → FastRand → Option (ℕ × FastRand) → Type 0
Draws fuel n g r =
    ((k : ℕ) × (g' : FastRand) × (r ≡ some (k, g')) × (k < n))
    ⊎ ((r ≡ none) × All (λ d. d < threshold_of n) (draws fuel g))

draw-Draws : (fuel n : ℕ) (g : FastRand) → 0 < n → Draws fuel n g (draw fuel n g)
unfolding draw draws
draw-Draws zero n g h = inr (refl, tt)
draw-Draws (suc fuel) n g h = elim (Bool-cases (leb (threshold_of n) (fastrand g).0)) [
  | inl taken ↦ rw (taken, draw) (inl ((fastrand g).0 % n, (fastrand g).1, refl, omega arith))
  | inr low ↦
      rw (low, draw)
        (elim (draw-Draws fuel n (fastrand g).1 h) [
          | inl found ↦ inl found
          | inr (e, below) ↦ inr (e, (ground arith, below))
        ])
]

-- rand_range returns a number from `min` to `max`, both included, or draws on: the bound on the draws
-- is used up only where each of them was below the threshold; where min is not above max.
pub rand_range-decides :
    (fuel min max : ℕ) (g : FastRand)
    → min ≤ max
    → ((k : ℕ) × (g' : FastRand) × (rand_range fuel min max g ≡ some (k, g'))
        × (min ≤ k)
        × (k ≤ max))
      ⊎ ((rand_range fuel min max g ≡ none)
          × All (λ d. d < threshold_of (max - min + 1)) (draws fuel g))
unfolding rand_range fastrand_n
rand_range-decides fuel min max g h = elim (draw-Draws fuel (max - min + 1) g (omega arith)) [
  | inl (k, g', e, lt) ↦ inl (min + k, g', rw (e, rand_range) refl, omega arith, omega arith)
  | inr (e, below) ↦ inr (rw (e, rand_range) refl, below)
]

-- The threshold is smaller than the bound, and the numbers that are not below it are a multiple of the
-- bound: every remainder comes up for equally many of them.
pub threshold_of-unbiased :
    (n : ℕ)
    → 0 < n
    → n ≤ u32_mod
    → (threshold_of n < n) × ((q : ℕ) × (u32_mod - threshold_of n ≡ q * n) × (0 < q))
unfolding threshold_of
threshold_of-unbiased n h le =
    let m = u32_mod - n in
    let split = mod-add-div' m n in
    let more : suc (m / n) * n ≡ m / n * n + n = suc-mul (m / n) n in
    let rest : m % n < n = mod-lt m h in
    (rest, (suc (m / n), omega (arith, split, more, rest), omega arith))
