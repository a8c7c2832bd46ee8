-- ===== src/Head/Framing.antt =====
-- Headers and frames on a connection: what a reader finds behind a header that was written.
use mathlib.Core.List.{append_assoc, reverse}
use embkv.Base.{
  ℕ, ◌<◌, ◌≡◌, refl, sym, ap, ◌∙◌, true, false, some, List, [], ◌∷◌, ◌++◌, arith, length, take,
  drop, u64_mod, ltb,
}
use embkv.Base.Octets.{swap64, le_bytes, length-le_bytes, le_bytes-swap64}
use embkv.Proto.{Bytes}
use embkv.Head.{header, serialize, deserialize, no_flags}
use embkv.Head.Wire.{serialize_layout, deserialize-serialize}
use embkv.Stream.{Connection, read_exact, write_exact}
use embkv.Stream.Exact.{read_exact-take, write_exact-all}

-- sizeof(Header)
abbrev pub header_size : ℕ
header_size = 14

-- The bytes of a header with some flags and a length.
unfoldable pub head : ℕ → ℕ → Bytes
head flags n = (serialize (header flags (swap64 n)) []).1

-- A message on the wire, behind its header.
abbrev pub frame : Bytes → Bytes
frame bytes = head no_flags (length bytes) ++ bytes

abbrev pub frames : List Bytes → Bytes
frames [] = []
frames (bytes ∷ rest) = frame bytes ++ frames rest

pub serialize-head :
    (flags n : ℕ) → flags < 256 → serialize (header flags (swap64 n)) [] ≡ (true, head flags n)
unfolding head
serialize-head flags n h = λ i. ((serialize_layout flags n [] h i).0, head flags n)

pub length-head : (flags n : ℕ) → flags < 256 → length (head flags n) ≡ header_size
unfolding head le_bytes
length-head flags n h =
    let layout = ap (λ r. length r.1) (serialize_layout flags n [] h) in
    let size : length (reverse (le_bytes 8 n)) ≡ 8 =
      ap (λ (l : Bytes). length l) (sym (le_bytes-swap64 n)) ∙ length-le_bytes 8 (swap64 n) in
    layout ∙ omega (arith, size)

pub deserialize-head :
    (flags n : ℕ) → flags < 256 → n < u64_mod → deserialize (head flags n) ≡ some (header flags n)
unfolding head
deserialize-head flags n f h = deserialize-serialize flags n [] f h

-- The first part of a concatenation, and what is behind it.
pub take-first {ℓ} : {A : Type ℓ} (xs ys : List A) → take (length xs) (xs ++ ys) ≡ xs
take-first [] ys = refl
take-first (x ∷ xs) ys = ap (λ l. x ∷ l) (take-first xs ys)

drop-first {ℓ} : {A : Type ℓ} (xs ys : List A) → drop (length xs) (xs ++ ys) ≡ ys
drop-first [] ys = refl
drop-first (x ∷ xs) ys = drop-first xs ys

pub append_cancel : (xs ys zs : Bytes) → xs ++ ys ≡ xs ++ zs → ys ≡ zs
append_cancel [] ys zs h = h
append_cancel (x ∷ xs) ys zs h = append_cancel xs ys zs (ap (drop 1) h)

module _ {C : Type 0} (conn : Connection C) where
  -- A read of as many bytes as the first part of what arrives.
  pub read-first :
      (xs ys : Bytes) (k : ℕ) (c : C)
      → k ≡ length xs
      → conn.incoming c ≡ xs ++ ys
      → let r = read_exact conn k c in (r.0 ≡ xs) × (conn.incoming r.1 ≡ ys)
  read-first xs ys k c e h =
      let r = read_exact-take conn k c in
      (
        r.0 ∙ ap (λ j. take j (conn.incoming c)) e ∙ ap (take (length xs)) h ∙ take-first xs ys,
        r.1 ∙ ap (λ j. drop j (conn.incoming c)) e ∙ ap (drop (length xs)) h ∙ drop-first xs ys,
      )

  -- The two writes that send a message behind its header.
  pub written-frame :
      (bytes : Bytes) (c : C)
      → conn.written
          (write_exact conn bytes (write_exact conn (head no_flags (length bytes)) c).1).1
        ≡ conn.written c ++ frame bytes
  written-frame bytes c =
      let first = write_exact-all conn (head no_flags (length bytes)) c in
      let second =
        write_exact-all conn bytes (write_exact conn (head no_flags (length bytes)) c).1 in
      second.1
      ∙ ap (λ l. l ++ bytes) first.1
      ∙ append_assoc (conn.written c) (head no_flags (length bytes)) bytes

  -- The read of a whole header.
  pub record Heads (flags n : ℕ) (rest : Bytes) (stream : C) : Type 0 where
    pub bytes : (read_exact conn header_size stream).0 ≡ head flags n
    pub whole : ltb (length (read_exact conn header_size stream).0) header_size ≡ false
    pub known : deserialize (read_exact conn header_size stream).0 ≡ some (header flags n)
    pub left : conn.incoming (read_exact conn header_size stream).1 ≡ rest

  pub read-Heads :
      (flags n : ℕ) (rest : Bytes) (stream : C)
      → flags < 256
      → n < u64_mod
      → conn.incoming stream ≡ head flags n ++ rest
      → Heads flags n rest stream
  read-Heads flags n rest stream f h e =
      let r = read-first (head flags n) rest header_size stream (sym (length-head flags n f)) e in
      record {
        bytes = r.0;
        whole = ground (arith, ap (λ (l : Bytes). length l) r.0, length-head flags n f);
        known = ap deserialize r.0 ∙ deserialize-head flags n f h;
        left = r.1;
      }
