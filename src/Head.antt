-- ===== src/Head.antt =====
-- embkv/include/raft/transport/head_manager.h: the 14 bytes before each message on a connection.
-- The host is little-endian, as the targets of the build files are (x86-64, ARM).
pub mod Wire
pub mod Framing
use Prim.Native.Nat.{bit_and, bit_or}
use embkv.Base.{
  ℕ, ◌+◌, ◌*◌, ◌/◌, ◌^◌, Bool, true, false, ◌&&◌, Option, none, some, List, [], ◌∷◌, ◌++◌, take,
  drop, ◌==◌, if◌then◌else◌,
}
use embkv.Base.Octets.{le_bytes, of_le, swap64}
use embkv.Proto.{Bytes}

-- A shift of a uint32_t to the left drops what passes bit 31.
unfoldable pub constexpr_htonl : ℕ → ℕ
constexpr_htonl x =
    bit_or
      (bit_or (bit_or (bit_and x 0xff000000 / 2 ^ 24) (bit_and x 0x00ff0000 / 2 ^ 8))
        (bit_and x 0x0000ff00 * 2 ^ 8))
      (bit_and x 0x000000ff * 2 ^ 24)

unfoldable pub magic_number : ℕ
unfolding constexpr_htonl
magic_number = constexpr_htonl 0xcd54a23e

abbrev pub version_number : ℕ
version_number = 1

-- enum class Flags: a byte, with names for some of its values.
abbrev pub raft_node : ℕ
raft_node = 0

abbrev pub client_node : ℕ
client_node = 1

abbrev pub admin_node : ℕ
admin_node = 2

abbrev pub no_flags : ℕ
no_flags = 4

pub record Header : Type 0 where
  pub magic : ℕ
  pub version : ℕ
  pub flags : ℕ
  pub length : ℕ

-- `Header{.length = n}` with the flags given.
unfoldable pub header : ℕ → ℕ → Header
header flags n = record {
  magic = magic_number;
  version = version_number;
  flags = flags;
  length = n;
}

unfoldable pub is_valid : Header → Bool
is_valid h = h.magic == magic_number && h.version == version_number

-- The packed structure in memory.
unfoldable pub memory : Header → Bytes
memory h = le_bytes 4 h.magic ++ le_bytes 1 h.version ++ le_bytes 1 h.flags ++ le_bytes 8 h.length

-- And back; the buffer has 14 bytes.
unfoldable pub of_memory : Bytes → Header
of_memory buf = record {
  magic = of_le (take 4 buf);
  version = of_le (take 1 (drop 4 buf));
  flags = of_le (take 1 (drop 5 buf));
  length = of_le (take 8 (drop 6 buf));
}

-- `serialize` writes to the buffer of the thread, and says whether it did.
unfoldable pub serialize : Header → Bytes → Bool × Bytes
serialize h buf = if is_valid h then (true, memory h) else (false, buf)

-- The length comes back in host order.
unfoldable pub deserialize : Bytes → Option Header
deserialize buf =
    let h = record (of_memory buf) { length = swap64 (of_memory buf).length } in
    if is_valid h then some h else none
