-- ===== src/Tests/Setup.antt =====
-- The set-up of a node: its configuration, addresses, and tables, at concrete inputs.
use mathlib.Core.List.Perm
use mathlib.Core.Option.{some-injective}
use embkv.Addr.{socket_addr, of_octets, port_of, af_inet}
use embkv.Addr.Wire.{socket_addr-layout}
use embkv.Base.Octets.{le_bytes}
use embkv.Base.{
  ℕ, ◌%◌, ◌^◌, ◌≡◌, refl, sym, ap, ◌∙◌, true, false, Option, none, some, List, [], ◌∷◌, arith,
  if◌then◌else◌, u64_mod,
}
use embkv.Base.Map.{Map}
use embkv.Proto.{Bytes}
use embkv.Store.Text.{bytes_eq, bytes_eq_refl}
use embkv.Config.{Config, Value, Json, Disk, default_config}
use embkv.Node.{peer_count}
use embkv.Node.Timers.{commit_candidate, match_values}
use embkv.Node.Timers.Order.{commit_candidate_order}
use embkv.Tests.Cluster.{leader}

-- An object as the list of its members, the last one that was set first.
abbrev pub Members : Type 0
Members = List (Bytes × Value)

abbrev pub member : Bytes → Members → Option Value
member k [] = none
member k ((l, v) ∷ vs) = if bytes_eq l k then some v else member k vs

abbrev pub number_or : ℕ → ℕ → Option Value → Option ℕ
number_or bound d none = some d
number_or bound d (some (Value.number n)) = some (n % bound)
number_or bound d (some (Value.text b)) = none

abbrev pub text_or : Bytes → Option Value → Option Bytes
text_or d none = some d
text_or d (some (Value.number n)) = none
text_or d (some (Value.text b)) = some b

member-set : (k : Bytes) (v : Value) (j : Members) → member k ((k, v) ∷ j) ≡ some v
member-set k v j = rw (bytes_eq_refl k) refl

member-other :
    (k l : Bytes) (v : Value) (j : Members)
    → bytes_eq k l ≡ false
    → member l ((k, v) ∷ j) ≡ member l j
member-other k l v j e = rw e refl

-- The text of an object stands for itself; that of an empty file is none.
abbrev members_json : Json Members (Option Members)
members_json = record {
  new = [];
  set = λ k v j. (k, v) ∷ j;
  value_u64 = λ j k d. number_or u64_mod d (member k j);
  value_u16 = λ j k d. number_or (2 ^ 16) d (member k j);
  value_string = λ j k d. text_or d (member k j);
  dump = λ j. some (some j);
  parse = λ t. t;
  parse-dump = λ j t e. sym (some-injective (some j) t e);
  u64-set = λ k n j d h.
      ap (number_or u64_mod d) (member-set k (Value.number n) j) ∙ ap some (omega (arith, h));
  u16-set = λ k n j d h.
      ap (number_or (2 ^ 16) d) (member-set k (Value.number n) j) ∙ ap some (omega (arith, h));
  string-set = λ k b j d. ap (text_or d) (member-set k (Value.text b) j);
  u64-other = λ k l v j d e. ap (number_or u64_mod d) (member-other k l v j e);
  u16-other = λ k l v j d e. ap (number_or (2 ^ 16) d) (member-other k l v j e);
  string-other = λ k l v j d e. ap (text_or d) (member-other k l v j e);
}

abbrev new_disk : Disk (Option Members)
new_disk = record { content = none; writable = true }

abbrev lost_disk : Disk (Option Members)
lost_disk = record { content = some none; writable = false }

-- The configuration of a second node.
abbrev second : Config
second = record default_config { node_id = 1; port = 8082 }

abbrev matched : Map ℕ
matched = (1, 1) ∷ (0, 2) ∷ (2, 2) ∷ []

commit_candidate_order_example :
    commit_candidate
      (peer_count leader)
      (match_values (record leader { st = record leader.st { match_index = matched } }))
    ≡ commit_candidate (peer_count leader) (match_values leader)
commit_candidate_order_example = commit_candidate_order leader matched (Perm.swap _ _ _)

-- 127.0.0.1:8080
socket_addr-layout_example :
    let addr = socket_addr (of_octets 127 0 0 1) 8080 in
    (addr.family ≡ af_inet)
    × (le_bytes 4 addr.s_addr ≡ 127 ∷ 0 ∷ 0 ∷ 1 ∷ [])
    × (le_bytes 2 addr.sin_port ≡ 31 ∷ 144 ∷ [])
    × (port_of addr ≡ 8080)
socket_addr-layout_example =
    socket_addr-layout 127 0 0 1 8080 (omega arith) (omega arith) (omega arith) (omega arith)
      (omega arith)
