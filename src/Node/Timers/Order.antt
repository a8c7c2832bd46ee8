-- ===== src/Node/Timers/Order.antt =====
-- The order in which the match indices are visited, that of an unordered_map, does not matter.
use mathlib.Core.List.{Perm, Permᴰ}
use mathlib.Core.List.Perm
use mathlib.Core.Logic.{∥∥₁_elim}
use native.Mathlib.Nat.{ℕ_set}
use embkv.Base.{ℕ, ◌≤◌, ◌≡◌, refl, sym, ap, ap₂, ◌∙◌, List, [], ◌∷◌, arith, length, map, All}
use embkv.Base.Map.{Map}
use embkv.Node.{RaftNode, peer_count}
use embkv.Node.Timers.{commit_candidate, match_values}
use embkv.Node.Timers.Sort.{
  sort, count_ge, IsSorted, sort-IsSorted, count_ge-sort, length-sort, count_ge-All,
  count_ge-length-le,
}

-- As many numbers of the one list as of the other are at least `v`, for each `v`.
abbrev SameCounts : List ℕ → List ℕ → Type 0
SameCounts xs ys = (v : ℕ) → count_ge v xs ≡ count_ge v ys

count_ge-All⁻¹ : (v : ℕ) (xs : List ℕ) → count_ge v xs ≡ length xs → All (λ y. v ≤ y) xs
unfolding count_ge
count_ge-All⁻¹ v [] e = tt
count_ge-All⁻¹ v (x ∷ xs) e = ground (arith, count_ge-All⁻¹ v xs, count_ge-length-le v xs)

count_ge_zero : (xs : List ℕ) → count_ge 0 xs ≡ length xs
unfolding count_ge
count_ge_zero [] = refl
count_ge_zero (x ∷ xs) = ground (arith, count_ge_zero xs)

-- All numbers of the other list are as large as the first one of a sorted list.
first_le : (x y : ℕ) (xs ys : List ℕ) → IsSorted (x ∷ xs) → SameCounts (x ∷ xs) (y ∷ ys) → x ≤ y
first_le x y xs ys s e =
    (count_ge-All⁻¹ x (y ∷ ys) (
      omega (
        arith,
        e x,
        e 0,
        count_ge-All x (x ∷ xs) (omega arith, s.0),
        count_ge_zero (x ∷ xs),
        count_ge_zero (y ∷ ys),
      ))).0

SameCounts-tail :
    (x y : ℕ) (xs ys : List ℕ) → x ≡ y → SameCounts (x ∷ xs) (y ∷ ys) → SameCounts xs ys
unfolding count_ge
SameCounts-tail x y xs ys p e v = ground (arith, e v)

sorted-eq : (xs ys : List ℕ) → IsSorted xs → IsSorted ys → SameCounts xs ys → xs ≡ ys
unfolding count_ge
sorted-eq [] [] s t e = refl
sorted-eq [] (y ∷ ys) s t e = absurd (ground (arith, e 0))
sorted-eq (x ∷ xs) [] s t e = absurd (ground (arith, e 0))
sorted-eq (x ∷ xs) (y ∷ ys) s t e =
    let p : x ≡ y = omega (arith, first_le x y xs ys s e, first_le y x ys xs t (λ v. sym (e v))) in
    ap₂ ◌∷◌ p (sorted-eq xs ys s.1 t.1 (SameCounts-tail x y xs ys p e))

sort-eq : (xs ys : List ℕ) → SameCounts xs ys → sort xs ≡ sort ys
sort-eq xs ys e =
    sorted-eq (sort xs) (sort ys) (sort-IsSorted xs) (sort-IsSorted ys)
      (λ v. count_ge-sort v xs ∙ e v ∙ sym (count_ge-sort v ys))

Permᴰ-SameCounts : {xs ys : List ℕ} → Permᴰ xs ys → SameCounts xs ys
unfolding count_ge
Permᴰ-SameCounts Permᴰ.nil v = refl
Permᴰ-SameCounts (Permᴰ.cons {l₁ = xs} {l₂ = ys} e p) v = ground (arith, e, Permᴰ-SameCounts p v)
Permᴰ-SameCounts (Permᴰ.swap e f) v = ground (arith, e, f)
Permᴰ-SameCounts (Permᴰ.trans p q) v = Permᴰ-SameCounts p v ∙ Permᴰ-SameCounts q v

Perm-SameCounts : (xs ys : List ℕ) → Perm xs ys → SameCounts xs ys
Perm-SameCounts xs ys p v = ∥∥₁_elim p (ℕ_set _ _) (λ q. Permᴰ-SameCounts q v)

-- What the leader finds to commit is the same for any order of its table of match indices.
pub commit_candidate_order :
    {M : Type 0} (n : RaftNode M) (table : Map ℕ)
    → Perm n.st.match_index table
    → commit_candidate
        (peer_count n)
        (match_values (record n { st = record n.st { match_index = table } }))
      ≡ commit_candidate (peer_count n) (match_values n)
unfolding commit_candidate
commit_candidate_order n table p =
    let values : Perm (match_values n) (map (λ e. e.1) table) = Perm.map (λ e. e.1) p in
    let sorted = sort-eq (match_values n) (map (λ e. e.1) table) (Perm-SameCounts _ _ values) in
    let same : length (match_values n) ≡ length (map (λ e. e.1) table) =
      sym (length-sort (match_values n)) ∙ ap length sorted ∙ length-sort (map (λ e. e.1) table) in
    rw (commit_candidate, sorted, same) refl
