-- ===== src/Stream/Exact.antt =====
-- What read_exact and write_exact do with a connection.
use mathlib.Core.List.{append-nil, append_assoc}
use embkv.Base.{
  ℕ, zero, suc, ◌-◌, ◌≤◌, ◌≡◌, refl, sym, ap, ◌∙◌, ◌⊎◌, inl, inr, List, [], ◌∷◌, ◌++◌, arith,
  length, take, drop, take-append, drop-append, length-drop, take-append-drop,
}
use embkv.Proto.{Bytes}
use embkv.Stream.{Connection, read_loop, read_exact, write_loop, write_exact}

List-cases {ℓ} :
    {A : Type ℓ} (xs : List A) → (xs ≡ []) ⊎ ((x : A) × (rest : List A) × (xs ≡ x ∷ rest))
List-cases [] = inl refl
List-cases (x ∷ rest) = inr (x, rest, refl)

ℕ-cases : (n : ℕ) → (n ≡ 0) ⊎ ((k : ℕ) × (n ≡ suc k))
ℕ-cases zero = inl refl
ℕ-cases (suc k) = inr (k, refl)

pub take-all {ℓ} : {A : Type ℓ} (k : ℕ) (xs : List A) → length xs ≤ k → take k xs ≡ xs
take-all zero [] h = refl
take-all zero (x ∷ xs) h = absurd (omega arith)
take-all (suc k) [] h = refl
take-all (suc k) (x ∷ xs) h = ap (λ l. x ∷ l) (take-all k xs (omega arith))

pub drop-all {ℓ} : {A : Type ℓ} (k : ℕ) (xs : List A) → length xs ≤ k → drop k xs ≡ []
drop-all zero [] h = refl
drop-all zero (x ∷ xs) h = absurd (omega arith)
drop-all (suc k) [] h = refl
drop-all (suc k) (x ∷ xs) h = drop-all k xs (omega arith)

-- As many elements as there are in front.
take-behind {ℓ} :
    {A : Type ℓ} (k : ℕ) (xs ys : List A)
    → length xs ≤ k
    → take k (xs ++ ys) ≡ xs ++ take (k - length xs) ys
take-behind k xs ys h =
    take-append k xs ys ∙ ap (λ l. l ++ take (k - length xs) ys) (take-all k xs h)

drop-behind {ℓ} :
    {A : Type ℓ} (k : ℕ) (xs ys : List A)
    → length xs ≤ k
    → drop k (xs ++ ys) ≡ drop (k - length xs) ys
drop-behind k xs ys h =
    drop-append k xs ys ∙ ap (λ l. l ++ drop (k - length xs) ys) (drop-all k xs h)

module _ {C : Type 0} (conn : Connection C) where
  abbrev Reads : ℕ → C → Bytes × C → Type 0
  Reads len c r =
      (r.0 ≡ take len (conn.incoming c))
      × (conn.incoming r.1 ≡ drop len (conn.incoming c))
      × (conn.written r.1 ≡ conn.written c)

  read_loop-Reads :
      (fuel left : ℕ) (c : C) → left ≤ fuel → Reads left c (read_loop conn fuel left c)
  unfolding read_loop
  read_loop-Reads zero zero c h = (refl, refl, refl)
  read_loop-Reads zero (suc left) c h = absurd (omega arith)
  read_loop-Reads (suc fuel) zero c h = (refl, refl, refl)
  read_loop-Reads (suc fuel) (suc left) c h = elim (List-cases (conn.read (suc left) c).0) [
    | inl stop ↦
        let ended = conn.read-some (suc left) c (omega arith) stop in
        let same : conn.incoming c ≡ conn.incoming (conn.read (suc left) c).1 =
          conn.read-incoming (suc left) c
          ∙ ap (λ l. l ++ conn.incoming (conn.read (suc left) c).1) stop in
        rw (stop, read_loop)
          (rw ended refl, sym same ∙ ended ∙ rw ended refl, conn.read-written (suc left) c)
    | inr (b, bs, e) ↦
        let c₁ = (conn.read (suc left) c).1 in
        let size : length (b ∷ bs) ≤ suc left =
          omega (arith, conn.read-le (suc left) c, ap (λ (l : Bytes). length l) e) in
        let split : conn.incoming c ≡ (b ∷ bs) ++ conn.incoming c₁ =
          conn.read-incoming (suc left) c ∙ ap (λ l. l ++ conn.incoming c₁) e in
        let ih = read_loop-Reads fuel (suc left - length (b ∷ bs)) c₁ (omega arith) in
        rw (e, read_loop)
          (
            ap (λ l. (b ∷ bs) ++ l) ih.0
                ∙ sym (take-behind (suc left) (b ∷ bs) (conn.incoming c₁) size)
                ∙ ap (take (suc left)) (sym split),
            ih.1
                ∙ sym (drop-behind (suc left) (b ∷ bs) (conn.incoming c₁) size)
                ∙ ap (drop (suc left)) (sym split),
            ih.2 ∙ conn.read-written (suc left) c,
          )
  ]

  -- read_exact returns the next `len` bytes of the connection, in however many pieces they arrive, and
  -- fewer only where the connection ends before; what comes behind them stays to be read.
  pub read_exact-take :
      (len : ℕ) (c : C)
      → let r = read_exact conn len c in
        (r.0 ≡ take len (conn.incoming c))
        × (conn.incoming r.1 ≡ drop len (conn.incoming c))
        × (conn.written r.1 ≡ conn.written c)
  unfolding read_exact
  read_exact-take len c = read_loop-Reads len len c (omega arith)

  abbrev Writes : Bytes → C → ℕ × C → Type 0
  Writes bs c r =
      (r.0 ≡ length bs)
      × (conn.written r.1 ≡ conn.written c ++ bs)
      × (conn.incoming r.1 ≡ conn.incoming c)

  write_loop-Writes :
      (fuel : ℕ) (bs : Bytes) (c : C) → length bs ≤ fuel → Writes bs c (write_loop conn fuel bs c)
  unfolding write_loop
  write_loop-Writes zero [] c h = (refl, sym (append-nil (conn.written c)), refl)
  write_loop-Writes zero (b ∷ bs) c h = absurd (omega arith)
  write_loop-Writes (suc fuel) [] c h = (refl, sym (append-nil (conn.written c)), refl)
  write_loop-Writes (suc fuel) (b ∷ bs) c h = elim (ℕ-cases (conn.write (b ∷ bs) c).0) [
    | inl stop ↦ absurd (omega (arith, conn.write-some (b ∷ bs) c (omega arith), stop))
    | inr (k, e) ↦
        let c₁ = (conn.write (b ∷ bs) c).1 in
        let size : suc k ≤ length (b ∷ bs) = rw (← e) (conn.write-le (b ∷ bs) c) in
        let ih =
          write_loop-Writes fuel (drop (suc k) (b ∷ bs)) c₁
            (omega (arith, length-drop (suc k) (b ∷ bs))) in
        let first : conn.written c₁ ≡ conn.written c ++ take (suc k) (b ∷ bs) =
          conn.write-written (b ∷ bs) c ∙ ap (λ j. conn.written c ++ take j (b ∷ bs)) e in
        rw (e, write_loop)
          (
            omega (arith, ih.0, length-drop (suc k) (b ∷ bs)),
            ih.1
                ∙ ap (λ l. l ++ drop (suc k) (b ∷ bs)) first
                ∙ append_assoc (conn.written c) (take (suc k) (b ∷ bs)) (drop (suc k) (b ∷ bs))
                ∙ ap (λ l. conn.written c ++ l) (take-append-drop (suc k) (b ∷ bs)),
            ih.2 ∙ conn.write-incoming (b ∷ bs) c,
          )
  ]

  -- write_exact writes all that it is given, in however many pieces the connection takes it.
  pub write_exact-all :
      (bs : Bytes) (c : C)
      → let r = write_exact conn bs c in
        (r.0 ≡ length bs)
        × (conn.written r.1 ≡ conn.written c ++ bs)
        × (conn.incoming r.1 ≡ conn.incoming c)
  unfolding write_exact
  write_exact-all bs c = write_loop-Writes (length bs) bs c (omega arith)
