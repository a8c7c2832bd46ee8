-- ===== src/Base/Sets.antt =====
-- Sets of numbers as lists: membership, distinctness, and what they say of the keys of a map.
use Prim.Native.Nat.{ℕ, suc, ◌≤◌}
use mathlib.Core.Path.{◌≡◌, refl}
use mathlib.Core.Bool.{Bool, true, false, ◌||◌}
use mathlib.Core.List.{List, [], ◌∷◌}
use native.Mathlib.Omega.{arith}
use embkv.Base.Tests.{◌==◌, if◌then◌else◌}
use embkv.Base.Lists.{length, All}
use embkv.Base.Map.{Map, keys, assign}

unfoldable pub contains : ℕ → List ℕ → Bool
contains k [] = false
contains k (x ∷ xs) = x == k || contains k xs

abbrev pub Distinct : List ℕ → Type 0
Distinct [] = Unit {0}
Distinct (x ∷ xs) = (contains x xs ≡ false) × Distinct xs

abbrev pub Subset : List ℕ → List ℕ → Type 0
Subset xs ys = All (λ x. contains x ys ≡ true) xs

-- The first occurrence taken out.
remove : ℕ → List ℕ → List ℕ
remove k [] = []
remove k (x ∷ xs) = if x == k then xs else x ∷ remove k xs

length-remove :
    (k : ℕ) (xs : List ℕ) → contains k xs ≡ true → suc (length (remove k xs)) ≡ length xs
unfolding contains remove
length-remove k [] h = cc
length-remove k (x ∷ xs) h = ground (arith, length-remove k xs)

contains-remove :
    (k j : ℕ) (xs : List ℕ)
    → (k == j) ≡ false
    → contains j xs ≡ true
    → contains j (remove k xs) ≡ true
unfolding contains remove
contains-remove k j [] h e = cc
contains-remove k j (x ∷ xs) h e = ground (arith, contains-remove k j xs)

Subset-remove :
    (k : ℕ) (xs ys : List ℕ) → contains k xs ≡ false → Subset xs ys → Subset xs (remove k ys)
unfolding contains
Subset-remove k [] ys h s = tt
Subset-remove k (x ∷ xs) ys h s =
    (contains-remove k x ys (ground arith) s.0, Subset-remove k xs ys (ground arith) s.1)

-- Distinct members of a list are no more than its length.
pub Subset-length-le : (xs ys : List ℕ) → Distinct xs → Subset xs ys → length xs ≤ length ys
Subset-length-le [] ys d s = omega arith
Subset-length-le (x ∷ xs) ys d s = omega (
  arith,
  length-remove x ys s.0,
  Subset-length-le xs (remove x ys) d.1 (Subset-remove x xs ys d.0 s.1),
)

module _ {ℓ} {V : Type ℓ} where
  pub contains-keys-assign :
      (k j : ℕ) (v : V) (m : Map V)
      → contains j (keys (assign k v m)) ≡ (k == j || contains j (keys m))
  unfolding contains assign
  contains-keys-assign k j v [] = refl
  contains-keys-assign k j v ((i, w) ∷ m) = ground (arith, contains-keys-assign k j v m)

  pub Distinct-keys-assign :
      (k : ℕ) (v : V) (m : Map V) → Distinct (keys m) → Distinct (keys (assign k v m))
  unfolding contains assign
  Distinct-keys-assign k v [] d = (refl, tt)
  Distinct-keys-assign k v ((i, w) ∷ m) d =
      ground (arith, Distinct-keys-assign k v m d.1, contains-keys-assign k i v m)

  pub All-assign {κ} :
      (P : ℕ × V → Type κ) (k : ℕ) (v : V) (m : Map V) → P (k, v) → All P m → All P (assign k v m)
  unfolding assign
  All-assign P k v [] p h = (p, tt)
  All-assign P k v ((i, w) ∷ m) p h = ground (arith, All-assign P k v m p h.1)

  pub Subset-keys-assign :
      (k : ℕ) (v : V) (m : Map V) (ps : List ℕ)
      → Subset ps (keys m)
      → Subset ps (keys (assign k v m))
  Subset-keys-assign k v m [] h = tt
  Subset-keys-assign k v m (p ∷ ps) h =
      (ground (arith, contains-keys-assign k p v m, h.0), Subset-keys-assign k v m ps h.1)

Subset-cons : (k : ℕ) (xs ys : List ℕ) → Subset xs ys → Subset xs (k ∷ ys)
unfolding contains
Subset-cons k [] ys s = tt
Subset-cons k (x ∷ xs) ys s = (ground arith, Subset-cons k xs ys s.1)

pub Subset-refl : (xs : List ℕ) → Subset xs xs
unfolding contains
Subset-refl [] = tt
Subset-refl (x ∷ xs) = (ground arith, Subset-cons x xs xs (Subset-refl xs))
