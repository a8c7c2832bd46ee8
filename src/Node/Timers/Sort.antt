-- ===== src/Node/Timers/Sort.antt =====
-- std::sort of numbers, by insertion, and what it promises.
use embkv.Base.{
  ℕ, zero, suc, ◌+◌, ◌≤◌, ◌≡◌, refl, List, [], ◌∷◌, leb, if◌then◌else◌, length, some, get_elem?,
  arith, All, Bool-cases, inl, inr,
}

insert : ℕ → List ℕ → List ℕ
insert x [] = x ∷ []
insert x (y ∷ ys) = if leb x y then x ∷ y ∷ ys else y ∷ insert x ys

unfoldable pub sort : List ℕ → List ℕ
unfolding insert
sort [] = []
sort (x ∷ xs) = insert x (sort xs)

-- How many numbers of the list are at least `v`.
unfoldable pub count_ge : ℕ → List ℕ → ℕ
count_ge v [] = 0
count_ge v (x ∷ xs) = (if leb v x then 1 else 0) + count_ge v xs

abbrev pub IsSorted : List ℕ → Type 0
IsSorted [] = Unit {0}
IsSorted (x ∷ xs) = All (λ y. x ≤ y) xs × IsSorted xs

All-insert : (z x : ℕ) (ys : List ℕ) → z ≤ x → All (λ y. z ≤ y) ys → All (λ y. z ≤ y) (insert x ys)
unfolding insert
All-insert z x [] h a = (h, tt)
All-insert z x (y ∷ ys) h a = ground (arith, All-insert z x ys h a.1)

All-mono : (z x : ℕ) (ys : List ℕ) → z ≤ x → All (λ y. x ≤ y) ys → All (λ y. z ≤ y) ys
All-mono z x [] h a = tt
All-mono z x (y ∷ ys) h a = (omega arith, All-mono z x ys h a.1)

insert-IsSorted : (x : ℕ) (ys : List ℕ) → IsSorted ys → IsSorted (insert x ys)
unfolding insert
insert-IsSorted x [] s = (tt, tt)
insert-IsSorted x (y ∷ ys) s =
    ground (arith, insert-IsSorted x ys s.1, All-insert y x ys, All-mono x y ys)

pub sort-IsSorted : (xs : List ℕ) → IsSorted (sort xs)
unfolding sort
sort-IsSorted [] = tt
sort-IsSorted (x ∷ xs) = insert-IsSorted x (sort xs) (sort-IsSorted xs)

count_ge-insert :
    (v x : ℕ) (ys : List ℕ) → count_ge v (insert x ys) ≡ (if leb v x then 1 else 0) + count_ge v ys
unfolding insert count_ge
count_ge-insert v x [] = refl
count_ge-insert v x (y ∷ ys) = ground (arith, count_ge-insert v x ys)

pub count_ge-sort : (v : ℕ) (xs : List ℕ) → count_ge v (sort xs) ≡ count_ge v xs
unfolding sort count_ge
count_ge-sort v [] = refl
count_ge-sort v (x ∷ xs) = omega (arith, count_ge-insert v x (sort xs), count_ge-sort v xs)

length-insert : (x : ℕ) (ys : List ℕ) → length (insert x ys) ≡ suc (length ys)
unfolding insert
length-insert x [] = refl
length-insert x (y ∷ ys) = ground (arith, length-insert x ys)

pub length-sort : (xs : List ℕ) → length (sort xs) ≡ length xs
unfolding sort
length-sort [] = refl
length-sort (x ∷ xs) = omega (arith, length-insert x (sort xs), length-sort xs)

pub count_ge-All : (v : ℕ) (xs : List ℕ) → All (λ y. v ≤ y) xs → count_ge v xs ≡ length xs
unfolding count_ge
count_ge-All v [] a = refl
count_ge-All v (x ∷ xs) a = ground (arith, count_ge-All v xs a.1)

le-get_elem? : (z v i : ℕ) (xs : List ℕ) → All (λ y. z ≤ y) xs → get_elem? xs i ≡ some v → z ≤ v
le-get_elem? z v i [] a e = cc
le-get_elem? z v zero (x ∷ xs) a e = ground arith
le-get_elem? z v (suc i) (x ∷ xs) a e = le-get_elem? z v i xs a.1 e

-- From place `i` on, nothing is smaller than what stands there.
count_ge-le :
    (i v : ℕ) (xs : List ℕ) → IsSorted xs → get_elem? xs i ≡ some v → length xs ≤ i + count_ge v xs
unfolding count_ge
count_ge-le i v [] s e = omega arith
count_ge-le zero v (x ∷ xs) s e = ground (arith, count_ge-All x xs s.0)
count_ge-le (suc i) v (x ∷ xs) s e = omega (arith, count_ge-le i v xs s.1 e)

pub count_ge-length-le : (v : ℕ) (xs : List ℕ) → count_ge v xs ≤ length xs
unfolding count_ge
count_ge-length-le v [] = omega arith
count_ge-length-le v (x ∷ xs) = ground (arith, count_ge-length-le v xs)

-- Up to place `i` nothing is larger.
count_gt-le :
    (i v : ℕ) (xs : List ℕ)
    → IsSorted xs
    → get_elem? xs i ≡ some v
    → count_ge (suc v) xs + suc i ≤ length xs
unfolding count_ge
count_gt-le i v [] s e = cc
count_gt-le zero v (x ∷ xs) s e = ground (arith, count_ge-length-le (suc v) xs)
count_gt-le (suc i) v (x ∷ xs) s e =
    ground (arith, count_gt-le i v xs s.1 e, le-get_elem? x v i xs s.0 e)

-- What stands at place `i` of the sorted list: enough numbers are as large, and too few are larger.
pub sort_rank :
    (i v : ℕ) (xs : List ℕ)
    → get_elem? (sort xs) i ≡ some v
    → (length xs ≤ i + count_ge v xs) × (count_ge (suc v) xs + suc i ≤ length xs)
sort_rank i v xs e = (
  omega (arith, count_ge-le i v (sort xs) (sort-IsSorted xs) e, count_ge-sort v xs, length-sort xs),
  omega (
    arith,
    count_gt-le i v (sort xs) (sort-IsSorted xs) e,
    count_ge-sort (suc v) xs,
    length-sort xs,
  ),
)

pub All-sort {ℓ} : (P : ℕ → Type ℓ) (xs : List ℕ) → All P xs → All P (sort xs)
unfolding sort
All-sort P [] a = tt
All-sort P (x ∷ xs) a = All-insert_any (sort xs) (All-sort P xs a.1)
  where
    All-insert_any : (ys : List ℕ) → All P ys → All P (insert x ys)
    All-insert_any [] h = (a.0, tt)
    All-insert_any (y ∷ ys) h = elim (Bool-cases (leb x y)) [
      | inl p ↦ rw (p, insert) (a.0, (h.0, h.1))
      | inr p ↦ rw (p, insert) (h.0, All-insert_any ys h.1)
    ]
