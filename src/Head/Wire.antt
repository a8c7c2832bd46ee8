-- ===== src/Head/Wire.antt =====
-- The bytes of a header, and the two ways between a header and its bytes.
use mathlib.Core.List.{reverse}
use embkv.Base.{ℕ, ◌^◌, ◌<◌, ◌≡◌, refl, ap, true, some, [], ◌∷◌, arith, u64_mod}
use embkv.Base.Octets.{le_bytes, swap64, of_le-le_bytes, le_bytes-swap64, swap64-swap64, swap64-lt}
use embkv.Proto.{Bytes}
use embkv.Head.{Header, header, magic_number, is_valid, memory, of_memory, serialize, deserialize}

magic_bytes : le_bytes 4 magic_number ≡ 0xcd ∷ 0x54 ∷ 0xa2 ∷ 0x3e ∷ []
unfolding magic_number le_bytes
magic_bytes = refl

header-valid : (flags n : ℕ) → is_valid (header flags n) ≡ true
unfolding is_valid header magic_number
header-valid flags n = refl

serialize-header :
    (flags n : ℕ) (buf : Bytes) → serialize (header flags n) buf ≡ (true, memory (header flags n))
unfolding serialize
serialize-header flags n buf = rw (header-valid flags n)

byte : (b : ℕ) → b < 256 → le_bytes 1 b ≡ b ∷ []
unfolding le_bytes
byte b h = ap (λ x. x ∷ []) (omega arith)

-- What a sender puts on the wire before a message of `n` bytes: the magic number as it is read, the
-- version, the flags, and the length in network order.
pub serialize_layout :
    (flags n : ℕ) (buf : Bytes)
    → flags < 256
    → serialize (header flags (swap64 n)) buf
      ≡ (true, 0xcd ∷ 0x54 ∷ 0xa2 ∷ 0x3e ∷ 1 ∷ flags ∷ reverse (le_bytes 8 n))
serialize_layout flags n buf h = rw (serialize-header flags (swap64 n) buf) (
    unfold memory header in
    rw (magic_bytes, byte flags h, byte 1 (omega arith), le_bytes-swap64 n) refl)

abbrev Fits : Header → Type 0
Fits h = (h.magic < 2 ^ 32) × (h.version < 256) × (h.flags < 256) × (h.length < u64_mod)

of_memory-memory : (h : Header) → Fits h → of_memory (memory h) ≡ h
unfolding of_memory memory le_bytes
of_memory-memory h f = λ i. record {
  magic = of_le-le_bytes 4 h.magic f.0 i;
  version = of_le-le_bytes 1 h.version f.1 i;
  flags = of_le-le_bytes 1 h.flags f.2 i;
  length = of_le-le_bytes 8 h.length f.3 i;
}

header-Fits : (flags n : ℕ) → flags < 256 → n < u64_mod → Fits (header flags n)
unfolding header magic_number
header-Fits flags n h k = omega arith

-- A header comes back as it was sent, its length in host order.
pub deserialize-serialize :
    (flags n : ℕ) (buf : Bytes)
    → flags < 256
    → n < u64_mod
    → deserialize (serialize (header flags (swap64 n)) buf).1 ≡ some (header flags n)
unfolding deserialize
deserialize-serialize flags n buf h k =
    rw
      (
        serialize-header flags (swap64 n) buf,
        of_memory-memory (header flags (swap64 n)) (header-Fits flags (swap64 n) h (swap64-lt n)),
      )
      (unfold header in rw (swap64-swap64 n k) (unfold is_valid magic_number in refl))
