-- ===== src/Stream.antt =====
-- embkv/include/socket/impl/impl_stream_read.h and impl_stream_write.h: read_exact and write_exact
-- on a connection.
pub mod Exact
use embkv.Base.{
  ℕ, zero, suc, ◌+◌, ◌-◌, ◌≤◌, ◌<◌, ◌≡◌, ◌≢◌, List, [], ◌∷◌, ◌++◌, length, take, drop,
  if◌then◌else◌, ◌==◌,
}
use embkv.Proto.{Bytes}

-- The calls read and write of the operating system on a blocking connection that does not fail:
-- `incoming` is all that arrives on it before its end, `written` all that was written to it. A read
-- takes a beginning of what arrives, at most as much as is asked for, and nothing only at the end;
-- a write takes a beginning of what it is given.
pub record Connection (C : Type 0) : Type 0 where
  pub incoming : C → Bytes
  pub written : C → Bytes
  pub read : ℕ → C → Bytes × C
  pub write : Bytes → C → ℕ × C
  pub close : C → C
  pub read-le : (k : ℕ) (c : C) → length (read k c).0 ≤ k
  pub read-incoming : (k : ℕ) (c : C) → incoming c ≡ (read k c).0 ++ incoming (read k c).1
  pub read-some : (k : ℕ) (c : C) → 0 < k → (read k c).0 ≡ [] → incoming c ≡ []
  pub read-written : (k : ℕ) (c : C) → written (read k c).1 ≡ written c
  pub write-le : (bs : Bytes) (c : C) → (write bs c).0 ≤ length bs
  pub write-some : (bs : Bytes) (c : C) → 0 < length bs → 0 < (write bs c).0
  pub write-written :
      (bs : Bytes) (c : C) → written (write bs c).1 ≡ written c ++ take (write bs c).0 bs
  pub write-incoming : (bs : Bytes) (c : C) → incoming (write bs c).1 ≡ incoming c

module _ {C : Type 0} (conn : Connection C) where
  -- The loop of read_exact with the bytes read, where `left` are still to come: each round that does
  -- not end the loop reads one byte at least.
  unfoldable pub read_loop : ℕ → ℕ → C → Bytes × C
  read_loop zero left c = ([], c)
  read_loop (suc fuel) zero c = ([], c)
  read_loop (suc fuel) (suc left) c = elim (conn.read (suc left) c).0 [
    | [] ↦ ([], (conn.read (suc left) c).1)
    | b ∷ bs ↦
        let (more, c') = read_loop fuel (suc left - length (b ∷ bs)) (conn.read (suc left) c).1 in
        ((b ∷ bs) ++ more, c')
  ]

  -- What was read to the buffer, whose length is the result of the call.
  unfoldable pub read_exact : ℕ → C → Bytes × C
  read_exact len c = read_loop len len c

  unfoldable pub write_loop : ℕ → Bytes → C → ℕ × C
  write_loop zero bs c = (0, c)
  write_loop (suc fuel) [] c = (0, c)
  write_loop (suc fuel) (b ∷ bs) c = elim (conn.write (b ∷ bs) c).0 [
    | zero ↦ (0, (conn.write (b ∷ bs) c).1)
    | suc k ↦
        let (more, c') = write_loop fuel (drop (suc k) (b ∷ bs)) (conn.write (b ∷ bs) c).1 in
        (suc k + more, c')
  ]

  unfoldable pub write_exact : Bytes → C → ℕ × C
  write_exact bs c = write_loop (length bs) bs c
