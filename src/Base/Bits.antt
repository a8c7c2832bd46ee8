-- ===== src/Base/Bits.antt =====
-- Exclusive or, and or, of unsigned numbers, digit by digit.
use Prim.Native.Nat.{
  ℕ, zero, suc, ◌+◌, ◌-◌, ◌*◌, ◌/◌, ◌%◌, ◌^◌, ◌≤◌, ◌<◌, bit_xor, digits, bit_xor-bitwise, differ,
  bit_or, bit_or-bitwise, max,
}
use mathlib.Core.Path.{◌≡◌, refl, sym, ◌∙◌, ap}
use native.Mathlib.Omega.{arith}
use native.Mathlib.Nat.{pow-suc, mul_assoc}

-- An operation on two digits, over the `n` lowest digits of the first number.
module _ (on_digits : ℕ → ℕ → ℕ) where
  abbrev over : ℕ → ℕ → ℕ → ℕ
  over = digits (λ b. b) on_digits

  over-zero : (n b : ℕ) → over n 0 b ≡ b
  over-zero zero b = refl
  over-zero (suc n) b = refl

  -- Digits beyond those of the number change nothing.
  over_spare : (n spare a b : ℕ) → a ≤ n → over (n + spare) a b ≡ over n a b
  over_spare n spare zero b h = over-zero (n + spare) b ∙ sym (over-zero n b)
  over_spare zero spare (suc a) b h = absurd (omega arith)
  over_spare (suc n) spare (suc a) b h =
      let half = over_spare n spare (suc a / 2) (b / 2) (omega arith) in
      let more : suc n + spare ≡ suc (n + spare) = omega arith in
      ap (λ k. over k (suc a) b) more ∙ ap (λ h. h * 2 + on_digits (suc a % 2) (b % 2)) half

  over_half : (a b : ℕ) → over a (suc a / 2) b ≡ over (suc a / 2) (suc a / 2) b
  over_half a b =
      let e : suc a / 2 + (a - suc a / 2) ≡ a = omega arith in
      ap (λ n. over n (suc a / 2) b) (sym e)
      ∙ over_spare (suc a / 2) (a - suc a / 2) (suc a / 2) b (omega arith)

zero-bit_xor : (b : ℕ) → bit_xor 0 b ≡ b
zero-bit_xor b = bit_xor-bitwise 0 b

-- Two digits: the exclusive or is their sum, unless both are 1.
differ-digit : (x y : ℕ) → x < 2 → y < 2 → differ x y ≡ (x + y) % 2
differ-digit zero y p q = omega arith
differ-digit (suc zero) zero p q = refl
differ-digit (suc zero) (suc zero) p q = refl
differ-digit (suc zero) (suc (suc y)) p q = absurd (omega arith)
differ-digit (suc (suc x)) y p q = absurd (omega arith)

pub bit_xor_step : (a b : ℕ) → bit_xor a b ≡ bit_xor (a / 2) (b / 2) * 2 + (a + b) % 2
bit_xor_step zero b = omega (arith, zero-bit_xor b, zero-bit_xor (b / 2))
bit_xor_step (suc a) b = omega (
  arith,
  bit_xor-bitwise (suc a) b,
  bit_xor-bitwise (suc a / 2) (b / 2),
  over_half differ a (b / 2),
  differ-digit (suc a % 2) (b % 2) (omega arith) (omega arith),
)

bit_xor-eq_zero_fuel : (n a b : ℕ) → a ≤ n → bit_xor a b ≡ 0 → a ≡ b
bit_xor-eq_zero_fuel zero zero b h e = omega (arith, zero-bit_xor b)
bit_xor-eq_zero_fuel zero (suc a) b h e = absurd (omega arith)
bit_xor-eq_zero_fuel (suc n) zero b h e = omega (arith, zero-bit_xor b)
bit_xor-eq_zero_fuel (suc n) (suc a) b h e =
    let step = bit_xor_step (suc a) b in
    omega
      (arith, step, bit_xor-eq_zero_fuel n (suc a / 2) (b / 2) (omega arith) (omega (arith, step)))

-- Only equal numbers cancel.
pub bit_xor-eq_zero : (a b : ℕ) → bit_xor a b ≡ 0 → a ≡ b
bit_xor-eq_zero a b e = bit_xor-eq_zero_fuel a a b (omega arith) e

bit_xor-zero_fuel : (n a : ℕ) → a ≤ n → bit_xor a 0 ≡ a
bit_xor-zero_fuel n zero h = zero-bit_xor 0
bit_xor-zero_fuel zero (suc a) h = absurd (omega arith)
bit_xor-zero_fuel (suc n) (suc a) h =
    omega (arith, bit_xor_step (suc a) 0, bit_xor-zero_fuel n (suc a / 2) (omega arith))

pub bit_xor-zero : (a : ℕ) → bit_xor a 0 ≡ a
bit_xor-zero a = bit_xor-zero_fuel a a (omega arith)

-- No digit is added.
pub bit_xor-lt : (k a b : ℕ) → a < 2 ^ k → b < 2 ^ k → bit_xor a b < 2 ^ k
bit_xor-lt zero a b p q =
    let e : a ≡ 0 = omega arith in omega (arith, ap (λ x. bit_xor x b) e, zero-bit_xor b)
bit_xor-lt (suc k) a b p q =
    let h : 2 ^ suc k ≡ 2 ^ k * 2 = pow-suc 2 k in
    omega (arith, bit_xor_step a b, bit_xor-lt k (a / 2) (b / 2) (omega arith) (omega arith))

zero-bit_or : (b : ℕ) → bit_or 0 b ≡ b
zero-bit_or b = bit_or-bitwise 0 b

bit_or-halves : (a b : ℕ) → bit_or a b ≡ bit_or (a / 2) (b / 2) * 2 + max (a % 2) (b % 2)
bit_or-halves zero b = omega (arith, zero-bit_or b, zero-bit_or (b / 2))
bit_or-halves (suc a) b =
    omega
      (arith, bit_or-bitwise (suc a) b, bit_or-bitwise (suc a / 2) (b / 2), over_half max a (b / 2))

-- Behind the digits of the first number, the second one is added.
pub bit_or_shifted : (k a b : ℕ) → a < 2 ^ k → bit_or a (b * 2 ^ k) ≡ a + b * 2 ^ k
bit_or_shifted zero a b h =
    let e : a ≡ 0 = omega arith in omega (arith, ap (λ x. bit_or x (b * 1)) e, zero-bit_or (b * 1))
bit_or_shifted (suc k) a b h =
    let p : 2 ^ suc k ≡ 2 ^ k * 2 = pow-suc 2 k in
    let q : b * 2 ^ suc k ≡ b * 2 ^ k * 2 = ap (λ x. b * x) p ∙ sym (mul_assoc b (2 ^ k) 2) in
    let r : b * 2 ^ suc k / 2 ≡ b * 2 ^ k = omega arith in
    omega (
      arith,
      bit_or-halves a (b * 2 ^ suc k),
      ap (bit_or (a / 2)) r,
      bit_or_shifted k (a / 2) b (omega arith),
    )
