-- ===== src/Base/Octets.antt =====
-- Numbers in memory: the bytes of an unsigned number on a little-endian machine, and the byte
-- swap between host and network order.
use mathlib.Core.List.{reverse, reverse-reverse}
use native.Mathlib.Nat.{pow-suc}
use Prim.Native.Nat.{ℕ, zero, suc, ◌+◌, ◌*◌, ◌/◌, ◌%◌, ◌^◌, ◌<◌}
use mathlib.Core.Path.{◌≡◌, refl, ap, ap₂, ◌∙◌}
use mathlib.Core.List.{List, [], ◌∷◌}
use native.Mathlib.Omega.{arith}
use embkv.Base.Lists.{length, All}

-- The `k` low bytes of a number, the lowest first.
unfoldable pub le_bytes : ℕ → ℕ → List ℕ
le_bytes zero n = []
le_bytes (suc k) n = n % 256 ∷ le_bytes k (n / 256)

-- The number that bytes in that order stand for.
unfoldable pub of_le : List ℕ → ℕ
of_le [] = 0
of_le (b ∷ bs) = b + 256 * of_le bs

abbrev pub IsBytes : List ℕ → Type 0
IsBytes = All (λ b. b < 256)

pub length-le_bytes : (k n : ℕ) → length (le_bytes k n) ≡ k
unfolding le_bytes
length-le_bytes zero n = refl
length-le_bytes (suc k) n = ap suc (length-le_bytes k (n / 256))

pub le_bytes-IsBytes : (k n : ℕ) → IsBytes (le_bytes k n)
unfolding le_bytes
le_bytes-IsBytes zero n = tt
le_bytes-IsBytes (suc k) n = (omega arith, le_bytes-IsBytes k (n / 256))

pub of_le-le_bytes : (k n : ℕ) → n < 256 ^ k → of_le (le_bytes k n) ≡ n
unfolding le_bytes of_le
of_le-le_bytes zero n h = omega arith
of_le-le_bytes (suc k) n h =
    let p : 256 ^ suc k ≡ 256 ^ k * 256 = pow-suc 256 k in
    omega (arith, of_le-le_bytes k (n / 256) (omega arith))

pub le_bytes-of_le : (bs : List ℕ) → IsBytes bs → le_bytes (length bs) (of_le bs) ≡ bs
unfolding le_bytes of_le
le_bytes-of_le [] h = refl
le_bytes-of_le (b ∷ bs) h =
    ap₂ ◌∷◌ (omega (arith, h.0))
      (ap (le_bytes (length bs)) (omega (arith, h.0)) ∙ le_bytes-of_le bs h.1)

of_le-lt : (bs : List ℕ) → IsBytes bs → of_le bs < 256 ^ length bs
unfolding of_le
of_le-lt [] h = omega arith
of_le-lt (b ∷ bs) h =
    let p : 256 ^ suc (length bs) ≡ 256 ^ length bs * 256 = pow-suc 256 (length bs) in
    omega (arith, h.0, of_le-lt bs h.1)

-- htobe64 and be64toh on a little-endian machine.
unfoldable pub swap64 : ℕ → ℕ
unfolding le_bytes of_le
swap64 n = of_le (reverse (le_bytes 8 n))

reverse-IsBytes : (n : ℕ) → IsBytes (reverse (le_bytes 8 n))
unfolding le_bytes
reverse-IsBytes n =
    let h = le_bytes-IsBytes 8 n in
    (
      h.1.1.1.1.1.1.1.0,
      (h.1.1.1.1.1.1.0, (h.1.1.1.1.1.0, (h.1.1.1.1.0, (h.1.1.1.0, (h.1.1.0, (h.1.0, (h.0, tt))))))),
    )

-- Network order is the reverse of the order in memory.
pub le_bytes-swap64 : (n : ℕ) → le_bytes 8 (swap64 n) ≡ reverse (le_bytes 8 n)
unfolding swap64 le_bytes
le_bytes-swap64 n = le_bytes-of_le (reverse (le_bytes 8 n)) (reverse-IsBytes n)

pub swap64-swap64 : (n : ℕ) → n < 2 ^ 64 → swap64 (swap64 n) ≡ n
unfolding swap64
swap64-swap64 n h =
    ap (λ bs. of_le (reverse bs)) (le_bytes-swap64 n)
    ∙ ap of_le (reverse-reverse (le_bytes 8 n))
    ∙ of_le-le_bytes 8 n h

pub swap64-lt : (n : ℕ) → swap64 n < 2 ^ 64
unfolding swap64 le_bytes
swap64-lt n = of_le-lt (reverse (le_bytes 8 n)) (reverse-IsBytes n)

-- htons and ntohs
unfoldable pub swap16 : ℕ → ℕ
unfolding le_bytes of_le
swap16 n = of_le (reverse (le_bytes 2 n))

pub swap16_digits : (n : ℕ) → swap16 n ≡ n / 256 % 256 + 256 * (n % 256)
unfolding swap16 le_bytes of_le
swap16_digits n = omega arith

pub swap16-swap16 : (n : ℕ) → n < 2 ^ 16 → swap16 (swap16 n) ≡ n
swap16-swap16 n h = omega (arith, swap16_digits n, swap16_digits (swap16 n))

pub swap16-lt : (n : ℕ) → swap16 n < 2 ^ 16
swap16-lt n = omega (arith, swap16_digits n)
