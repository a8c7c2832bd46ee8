-- ===== src/Descriptor/Ownership.antt =====
-- No descriptor has two owners, and none is closed twice.
use embkv.Base.{
  ℕ, ◌≡◌, ◌≢◌, refl, true, false, Option, none, some, List, [], ◌∷◌, arith, ok, ◌>>=◌, Returns,
  Returns-bind, Returns-map, Returns-and, Holds,
}
use embkv.Descriptor.{
  Table, Use, update, hold, sys_close, close_some, close, release, move_construct, move_assign,
  use_fd, use_all,
}

-- Each descriptor that is held is open, and has one holder.
pub record IsOwned (t : Table) : Type 0 where
  pub opened : (i d : ℕ) → t.held i ≡ some d → t.is_open d ≡ true
  pub single : (i j d : ℕ) → t.held i ≡ some d → t.held j ≡ some d → i ≡ j

-- What the language and the system promise of a use: a call returns a descriptor that is not open, and
-- a constructor runs on an object that holds nothing.
abbrev pub IsLegal : Use → Table → Type 0
IsLegal (Use.open_fd i d) t = (t.held i ≡ none) × (t.is_open d ≡ false)
IsLegal (Use.close_fd i) t = Unit {0}
IsLegal (Use.release_fd i) t = Unit {0}
IsLegal (Use.construct_fd i other) t = (t.held i ≡ none) × (i ≢ other)
IsLegal (Use.assign_fd i other) t = Unit {0}

abbrev pub AllLegal : List Use → Table → Type 0
AllLegal [] t = Unit {0}
AllLegal (u ∷ us) t = IsLegal u t × Holds (AllLegal us) (use_fd u t)

hold-none-IsOwned : (i : ℕ) (t : Table) → IsOwned t → IsOwned (hold i none t)
hold-none-IsOwned i t v = record {
  opened = λ j d h. ground (arith, v.opened j d);
  single = λ j k d h g. ground (arith, v.single j k d);
}

moved-IsOwned :
    (i other : ℕ) (t : Table)
    → IsOwned t
    → t.held i ≡ none
    → IsOwned (hold other none (hold i (t.held other) t))
moved-IsOwned i other t v free = record {
  opened = λ j d h. ground (arith, v.opened j d, v.opened other d);
  single = λ j k d h g. ground (arith, v.single j k d, v.single j other d, v.single k other d);
}

closed-IsOwned :
    (i d : ℕ) (t : Table)
    → IsOwned t
    → t.held i ≡ some d
    → IsOwned (hold i none (record t { is_open = update t.is_open d false }))
closed-IsOwned i d t v e = record {
  opened = λ j k h. ground (arith, v.opened j k, v.single i j d e);
  single = λ j k c h g. ground (arith, v.single j k c);
}

close_held-IsOwned :
    (i : ℕ) (t : Table) (fd : Option ℕ)
    → t.held i ≡ fd
    → IsOwned t
    → Returns (λ u. IsOwned u × (u.held i ≡ none)) (close_some fd t >>= λ u. ok (hold i none u))
unfolding sys_close
close_held-IsOwned i t none e v = (hold-none-IsOwned i t v, ground arith)
close_held-IsOwned i t (some d) e v = rw (v.opened i d e) (closed-IsOwned i d t v e, ground arith)

close-IsOwned :
    (i : ℕ) (t : Table) → IsOwned t → Returns (λ u. IsOwned u × (u.held i ≡ none)) (close i t)
unfolding close
close-IsOwned i t v = close_held-IsOwned i t (t.held i) refl v

move_assign-IsOwned :
    (i other : ℕ) (t : Table) → IsOwned t → Returns IsOwned (move_assign i other t)
unfolding move_assign
move_assign-IsOwned i other t v =
    Returns-bind (λ u. IsOwned u × (u.held i ≡ none)) IsOwned (close i t)
      (λ u. ok (hold other none (hold i (u.held other) u))) (close-IsOwned i t v)
      (λ u p. moved-IsOwned i other u p.0 p.1)

open-IsOwned :
    (i d : ℕ) (t : Table)
    → IsOwned t
    → t.held i ≡ none
    → t.is_open d ≡ false
    → IsOwned (hold i (some d) (record t { is_open = update t.is_open d true }))
open-IsOwned i d t v free shut = record {
  opened = λ j k h. ground (arith, v.opened j k);
  single = λ j k c h g. ground (arith, v.single j k c, v.opened j c, v.opened k c);
}

use_fd-IsOwned : (u : Use) (t : Table) → IsOwned t → IsLegal u t → Returns IsOwned (use_fd u t)
unfolding use_fd release move_construct
use_fd-IsOwned (Use.open_fd i d) t v (free, shut) = open-IsOwned i d t v free shut
use_fd-IsOwned (Use.close_fd i) t v l =
    Returns-map (λ w. IsOwned w × (w.held i ≡ none)) IsOwned (close i t) (λ w p. p.0)
      (close-IsOwned i t v)
use_fd-IsOwned (Use.release_fd i) t v l = hold-none-IsOwned i t v
use_fd-IsOwned (Use.construct_fd i other) t v (free, l) = moved-IsOwned i other t v free
use_fd-IsOwned (Use.assign_fd i other) t v l = move_assign-IsOwned i other t v

-- Objects that own their descriptors, and are opened, closed, released, moved from and assigned to in
-- any legal order, never close a descriptor that is not open, and own their descriptors in the end.
pub use_all-IsOwned :
    (us : List Use) (t : Table) → IsOwned t → AllLegal us t → Returns IsOwned (use_all us t)
unfolding use_all
use_all-IsOwned [] t v l = v
use_all-IsOwned (u ∷ us) t v (l, ls) =
    Returns-bind (λ w. IsOwned w × AllLegal us w) IsOwned (use_fd u t) (use_all us)
      (Returns-and IsOwned (AllLegal us) (use_fd u t) (use_fd-IsOwned u t v l) ls)
      (λ w p. use_all-IsOwned us w p.0 p.1)
