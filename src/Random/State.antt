-- ===== src/Random/State.antt =====
-- The states of the generator.
use Prim.Native.Nat.{bit_xor}
use embkv.Base.{
  ℕ, zero, suc, ◌+◌, ◌*◌, ◌/◌, ◌%◌, ◌^◌, ◌<◌, ◌≡◌, refl, sym, ap, ◌∙◌, none, arith, leb, false,
}
use embkv.Base.Bits.{bit_xor-eq_zero, bit_xor-zero, bit_xor-lt}
use embkv.Random.{FastRand, u32_mod, shift_mix, next_two, fastrand, draw, threshold_of}

-- Two 32-bit words that are not both zero.
pub record IsState (g : FastRand) : Type 0 where
  pub one_fits : g.one < u32_mod
  pub two_fits : g.two < u32_mod
  pub not_zero : 0 < g.one + g.two

shift_mix-lt : (s : ℕ) → s < u32_mod → shift_mix s < u32_mod
unfolding shift_mix
shift_mix-lt s h = bit_xor-lt 32 s (s * 2 ^ 17 % u32_mod) h (omega arith)

next_two-lt : (s1 s0 : ℕ) → s1 < u32_mod → s0 < u32_mod → next_two s1 s0 < u32_mod
unfolding next_two
next_two-lt s1 s0 h k =
    bit_xor-lt 32 _ (s0 / 2 ^ 16)
      (bit_xor-lt 32 _ (s1 / 2 ^ 7) (bit_xor-lt 32 s1 s0 h k) (omega arith)) (omega arith)

-- Both rounds of mixing take only zero to zero.
shift_mix-eq_zero : (s : ℕ) → s < u32_mod → shift_mix s ≡ 0 → s ≡ 0
unfolding shift_mix
shift_mix-eq_zero s h e =
    let same : s ≡ s * 2 ^ 17 % u32_mod = bit_xor-eq_zero s (s * 2 ^ 17 % u32_mod) e in omega arith

next_two-eq_zero : (s1 : ℕ) → next_two s1 0 ≡ 0 → s1 ≡ 0
unfolding next_two
next_two-eq_zero s1 e =
    let first : bit_xor (bit_xor s1 0) (s1 / 2 ^ 7) ≡ 0 = sym (bit_xor-zero _) ∙ e in
    let same : bit_xor s1 0 ≡ s1 / 2 ^ 7 = bit_xor-eq_zero (bit_xor s1 0) (s1 / 2 ^ 7) first in
    omega (arith, same, bit_xor-zero s1)

pos_of_not_zero : (a b : ℕ) → (a ≡ 0 → b ≡ 0 → ⊥) → 0 < a + b
pos_of_not_zero zero zero h = absurd (h refl refl)
pos_of_not_zero zero (suc b) h = omega arith
pos_of_not_zero (suc a) b h = omega arith

-- Every draw from a state that is not zero gives a 32-bit number and leaves such a state: the
-- generator never reaches the zero state, in which it would give zeros only.
pub fastrand-IsState :
    (g : FastRand) → IsState g → ((fastrand g).0 < u32_mod) × IsState (fastrand g).1
unfolding fastrand
fastrand-IsState g v =
    let mixed = shift_mix-lt g.one v.one_fits in
    (
      omega arith,
      record {
        one_fits = v.two_fits;
        two_fits = next_two-lt (shift_mix g.one) g.two mixed v.two_fits;
        not_zero = pos_of_not_zero g.two (next_two (shift_mix g.one) g.two) (λ two_zero next_zero.
            let mixed_zero =
              next_two-eq_zero (shift_mix g.one)
                (ap (next_two (shift_mix g.one)) (sym two_zero) ∙ next_zero) in
            omega (arith, shift_mix-eq_zero g.one v.one_fits mixed_zero, two_zero, v.not_zero));
      },
    )

zero_stays : fastrand (record { one = 0; two = 0 }) ≡ (0, record { one = 0; two = 0 })
unfolding fastrand shift_mix next_two
zero_stays = refl

draw-stuck :
    (fuel n : ℕ) (g : FastRand)
    → fastrand g ≡ (0, g)
    → leb (threshold_of n) 0 ≡ false
    → draw fuel n g ≡ none
unfolding draw
draw-stuck zero n g stays low = refl
draw-stuck (suc fuel) n g stays low = rw (stays, low, draw) (draw-stuck fuel n g stays low)

-- From the zero state, which two seeds of zero give, a draw never ends for a bound that does not divide
-- 2 ^ 32.
pub draw-zero_state :
    (fuel n : ℕ) → 0 < threshold_of n → draw fuel n (record { one = 0; two = 0 }) ≡ none
draw-zero_state fuel n h = draw-stuck fuel n (record { one = 0; two = 0 }) zero_stays (ground arith)
