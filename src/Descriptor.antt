-- ===== src/Descriptor.antt =====
-- embkv/include/common/util/fd.h and embkv/src/common/util/fd.cpp: objects that own descriptors, with
-- the table of the descriptors that are open.
pub mod Ownership
use embkv.Base.{
  ℕ, Bool, true, false, Option, none, some, List, [], ◌∷◌, ◌==◌, if◌then◌else◌, Result, ok, fault,
  bad_close, ◌>>=◌,
}

abbrev pub update {ℓ} : {A : Type ℓ} → (ℕ → A) → ℕ → A → ℕ → A
update f i a j = if i == j then a else f j

-- What each FD object holds, none for -1, and which descriptors are open. A close of a descriptor that
-- is not open could hit another's, and is a fault.
pub record Table : Type 0 where
  pub held : ℕ → Option ℕ
  pub is_open : ℕ → Bool

-- is_valid()
abbrev pub is_valid : ℕ → Table → Bool
is_valid i t = elim (t.held i) [ none ↦ false | some d ↦ true ]

-- `fd_ = fd`
abbrev pub hold : ℕ → Option ℕ → Table → Table
hold i fd t = record t { held = update t.held i fd }

-- The call close of the system.
unfoldable pub sys_close : ℕ → Table → Result Table
sys_close d t =
    if t.is_open d then ok (record t { is_open = update t.is_open d false }) else fault bad_close

abbrev pub close_some : Option ℕ → Table → Result Table
close_some none t = ok t
close_some (some d) t = sys_close d t

-- FD::close, which the destructor calls too.
unfoldable pub close : ℕ → Table → Result Table
unfolding sys_close
close i t = close_some (t.held i) t >>= λ u. ok (hold i none u)

-- FD::release: the descriptor stays open, and nobody holds it.
unfoldable pub release : ℕ → Table → Option ℕ × Table
release i t = (t.held i, hold i none t)

-- FD(FD&&) on a new object.
unfoldable pub move_construct : ℕ → ℕ → Table → Table
move_construct i other t = hold other none (hold i (t.held other) t)

-- operator=(FD&&); the two objects may be the same.
unfoldable pub move_assign : ℕ → ℕ → Table → Result Table
unfolding close
move_assign i other t = close i t >>= λ u. ok (hold other none (hold i (u.held other) u))

-- What a program does with its objects. `open` is the construction of an object from the descriptor
-- that a call like socket or accept returns.
pub data Use : Type 0 where
  open_fd : ℕ → ℕ → Use
  close_fd : ℕ → Use
  release_fd : ℕ → Use
  construct_fd : ℕ → ℕ → Use
  assign_fd : ℕ → ℕ → Use

unfoldable pub use_fd : Use → Table → Result Table
unfolding close release move_construct move_assign
use_fd (Use.open_fd i d) t = ok (hold i (some d) (record t { is_open = update t.is_open d true }))
use_fd (Use.close_fd i) t = close i t
use_fd (Use.release_fd i) t = ok (release i t).1
use_fd (Use.construct_fd i other) t = ok (move_construct i other t)
use_fd (Use.assign_fd i other) t = move_assign i other t

unfoldable pub use_all : List Use → Table → Result Table
unfolding use_fd
use_all [] t = ok t
use_all (u ∷ us) t = use_fd u t >>= λ v. use_all us v
