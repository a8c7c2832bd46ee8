-- ===== src/Addr/Wire.antt =====
-- What an address is in memory.
use Prim.Native.Nat.{bit_or}
use mathlib.Core.Path.{ap₂}
use embkv.Base.{ℕ, ◌+◌, ◌*◌, ◌/◌, ◌%◌, ◌^◌, ◌<◌, ◌≡◌, refl, ap, ◌∙◌, [], ◌∷◌, arith}
use embkv.Base.Bits.{bit_or_shifted}
use embkv.Base.Octets.{le_bytes, swap16_digits, swap16-swap16}
use embkv.Addr.{of_octets, socket_addr, port_of, af_inet}

-- The bytes are one behind the other.
pub of_octets-ip :
    (a b c d : ℕ)
    → a < 256
    → b < 256
    → c < 256
    → (of_octets a b c d).ip ≡ a + b * 2 ^ 8 + c * 2 ^ 16 + d * 2 ^ 24
unfolding of_octets
of_octets-ip a b c d ha hb hc =
    let p : bit_or a (b * 2 ^ 8) ≡ a + b * 2 ^ 8 = bit_or_shifted 8 a b (omega arith) in
    let q = bit_or_shifted 16 (a + b * 2 ^ 8) c (omega arith) in
    let r = bit_or_shifted 24 (a + b * 2 ^ 8 + c * 2 ^ 16) d (omega arith) in
    ap (λ x. bit_or (bit_or x (c * 2 ^ 16)) (d * 2 ^ 24)) p ∙ ap (λ x. bit_or x (d * 2 ^ 24)) q ∙ r

-- A SocketAddr(Ipv4Addr(a, b, c, d), port) in memory: the four bytes of the address are a, b, c
-- and d in this order, the two bytes of the port are in network order, the high one first, and
-- port() is the port; where a to d are below 256 and the port is below 65536.
pub socket_addr-layout :
    (a b c d port : ℕ)
    → a < 256
    → b < 256
    → c < 256
    → d < 256
    → port < 2 ^ 16
    → let addr = socket_addr (of_octets a b c d) port in
      (addr.family ≡ af_inet)
      × (le_bytes 4 addr.s_addr ≡ a ∷ b ∷ c ∷ d ∷ [])
      × (le_bytes 2 addr.sin_port ≡ port / 256 ∷ port % 256 ∷ [])
      × (port_of addr ≡ port)
unfolding socket_addr port_of le_bytes
socket_addr-layout a b c d port ha hb hc hd hp =
    let e = of_octets-ip a b c d ha hb hc in
    (
      refl,
      ap₂ ◌∷◌ (omega (arith, e)) (
          ap₂ ◌∷◌ (omega (arith, e))
            (ap₂ ◌∷◌ (omega (arith, e)) (ap₂ ◌∷◌ (omega (arith, e)) refl))),
      ap₂ ◌∷◌ (omega (arith, swap16_digits port))
          (ap₂ ◌∷◌ (omega (arith, swap16_digits port)) refl),
      swap16-swap16 port hp,
    )
