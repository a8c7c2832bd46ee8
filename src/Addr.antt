-- ===== src/Addr.antt =====
-- embkv/include/socket/net/addr.h: IPv4 addresses and socket addresses, on a little-endian machine.
pub mod Wire
use Prim.Native.Nat.{bit_or}
use embkv.Base.{
  ℕ, ◌+◌, ◌*◌, ◌^◌, Bool, true, false, not, Option, none, some, List, [], ◌∷◌, ◌++◌, ◌==◌,
}
use embkv.Base.Octets.{swap16}
use embkv.Proto.{Bytes}

-- The address as it stands in memory, an uint32_t.
pub record Ipv4Addr : Type 0 where
  pub ip : ℕ

-- `a | b << 8 | c << 16 | d << 24`, of four uint8_t, so that no digit is shifted out.
unfoldable pub of_octets : ℕ → ℕ → ℕ → ℕ → Ipv4Addr
of_octets a b c d = record { ip = bit_or (bit_or (bit_or a (b * 2 ^ 8)) (c * 2 ^ 16)) (d * 2 ^ 24) }

unfoldable pub same_addr : Ipv4Addr → Ipv4Addr → Bool
same_addr lhs rhs = lhs.ip == rhs.ip

unfoldable pub other_addr : Ipv4Addr → Ipv4Addr → Bool
other_addr lhs rhs = not (lhs.ip == rhs.ip)

abbrev pub af_inet : ℕ
af_inet = 2

-- SocketAddr, a sockaddr_in: the port is in network order.
pub record SocketAddr : Type 0 where
  pub family : ℕ
  pub sin_port : ℕ
  pub s_addr : ℕ

-- SocketAddr(ip, port)
unfoldable pub socket_addr : Ipv4Addr → ℕ → SocketAddr
unfolding swap16
socket_addr ip port = record { family = af_inet; sin_port = swap16 port; s_addr = ip.ip }

unfoldable pub ip_of : SocketAddr → Ipv4Addr
ip_of a = record { ip = a.s_addr }

unfoldable pub set_ip : Ipv4Addr → SocketAddr → SocketAddr
set_ip ip a = record a { s_addr = ip.ip }

unfoldable pub port_of : SocketAddr → ℕ
unfolding swap16
port_of a = swap16 a.sin_port

-- The calls of the system on the text of addresses: inet_ntop, inet_pton and getaddrinfo for a numeric
-- host, with the error that they leave; getaddrinfo can report success without a result.
pub record Resolver : Type 0 where
  pub inet_ntop : ℕ → Bytes
  pub inet_pton : Bytes → Option ℕ
  pub getaddrinfo : Bytes → Bytes → Option (Option SocketAddr)
  pub to_string : ℕ → Bytes

-- `errno` is what a call that fails leaves, `einval` is EINVAL. The result is the one of the function, the
-- address and the error code.
module _ (r : Resolver) (errno einval : ℕ) where
  -- Ipv4Addr::parse, on the address and the error code that the caller passes.
  unfoldable pub parse_ip : Bytes → Ipv4Addr → ℕ → Bool × Ipv4Addr × ℕ
  parse_ip text out ec = elim (r.inet_pton text) [
    | none ↦ (false, out, errno)
    | some addr ↦ (true, record { ip = addr }, ec)
  ]

  unfoldable pub take_result : Option (Option SocketAddr) → SocketAddr → ℕ → Bool × SocketAddr × ℕ
  take_result none out ec = (false, out, errno)
  take_result (some none) out ec = (false, out, einval)
  take_result (some (some addr)) out ec = (true, addr, ec)

  -- SocketAddr::parse
  unfoldable pub parse : Bytes → ℕ → SocketAddr → ℕ → Bool × SocketAddr × ℕ
  unfolding take_result
  parse host port out ec = take_result (r.getaddrinfo host (r.to_string port)) out ec

  -- The address, a colon and the port.
  unfoldable pub print : SocketAddr → Bytes
  unfolding port_of
  print a = r.inet_ntop a.s_addr ++ (58 ∷ r.to_string (port_of a))
