-- ===== src/Base/Results.antt =====
-- What a call that can go wrong returns: a value, or the way in which it failed.

-- `out_of_range` is the exception of `std::vector::at`, `runtime_error` the exception of that name,
-- `failed_assert` the end of the program by `assert`; `bad_index` and `bad_deref` are undefined
-- behaviour: an index behind the end, and a dereference of an empty optional or a null pointer.
-- `bad_close` is the close of a descriptor that is not open.
pub data Fault : Type 0 where
  out_of_range runtime_error failed_assert bad_index bad_deref bad_close : Fault

-- The rest of a call is not run after a fault.
pub data Result {ℓ} (A : Type ℓ) : Type ℓ where
  fault : Fault → Result A
  ok : A → Result A

infixl 5 ◌>>=◌
abbrev pub ◌>>=◌ {ι ℓ} : {A : Type ι} {B : Type ℓ} → Result A → (A → Result B) → Result B
fault e >>= rest = fault e
ok value >>= rest = rest value

-- The call returns a value, and `P` holds of it.
abbrev pub Returns {ℓ} : {A : Type ℓ} → (A → Type 0) → Result A → Type 0
Returns P (ok a) = P a
Returns P (fault e) = ⊥

pub Returns-bind {ℓ κ} :
    {A : Type ℓ} {B : Type κ} (P : A → Type 0) (Q : B → Type 0) (m : Result A) (f : A → Result B)
    → Returns P m
    → ((a : A) → P a → Returns Q (f a))
    → Returns Q (m >>= f)
Returns-bind P Q (ok a) f h k = k a h
Returns-bind P Q (fault e) f h k = absurd h

-- If the call returns a value, `P` holds of it.
abbrev pub Holds {ℓ} : {A : Type ℓ} → (A → Type 0) → Result A → Type 0
Holds P (ok a) = P a
Holds P (fault e) = Unit {0}

pub Returns-map {ℓ} :
    {A : Type ℓ} (P Q : A → Type 0) (m : Result A)
    → ((a : A) → P a → Q a)
    → Returns P m
    → Returns Q m
Returns-map P Q (ok a) f h = f a h
Returns-map P Q (fault e) f h = absurd h

pub Returns-and {ℓ} :
    {A : Type ℓ} (P Q : A → Type 0) (m : Result A)
    → Returns P m
    → Holds Q m
    → Returns (λ a. P a × Q a) m
Returns-and P Q (ok a) h k = (h, k)
Returns-and P Q (fault e) h k = absurd h

pub Returns-both {ℓ} :
    {A : Type ℓ} (P Q : A → Type 0) (m : Result A)
    → Returns P m
    → Returns Q m
    → Returns (λ a. P a × Q a) m
Returns-both P Q (ok a) h k = (h, k)
Returns-both P Q (fault e) h k = absurd h
