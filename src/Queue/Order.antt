-- ===== src/Queue/Order.antt =====
-- The four queues as one list, the more urgent first.
use Prim.Native.Nat.{min}
use mathlib.Core.List.{append-nil, append_assoc}
use embkv.Base.{
  ℕ, ◌-◌, ◌≤◌, ◌≡◌, ◌≢◌, refl, sym, ap, ap₂, ◌∙◌, true, List, [], ◌∷◌, ◌++◌, arith, length, take,
  drop, leb, All, Bool-cases, inl, inr, take-nil, drop-nil, take-append, drop-append, length-append,
  length-take,
}
use embkv.Proto.{Priority}
use embkv.Queue.{
  ConcurrentQueue, PriorityQueue, at, put, priorities, enqueue, dequeue_loop, try_dequeue_bulk,
}

at-put_self : {Q : Type 0} (p : Priority) (x : Q) (q : PriorityQueue Q) → at p (put p x q) ≡ x
unfolding at put
at-put_self p x q = ground arith

at-put_ne :
    {Q : Type 0} (p r : Priority) (x : Q) (q : PriorityQueue Q) → p ≢ r → at r (put p x q) ≡ at r q
unfolding at put
at-put_ne p r x q h = ground arith

abbrev Absent : Priority → List Priority → Type 0
Absent p = All (λ r. p ≢ r)

abbrev Distinct : List Priority → Type 0
Distinct [] = Unit {0}
Distinct (p ∷ ps) = Absent p ps × Distinct ps

priorities-Distinct : Distinct priorities
priorities-Distinct = (
  ((λ e. cc), ((λ e. cc), ((λ e. cc), tt))),
  ((((λ e. cc), ((λ e. cc), tt))), (((λ e. cc), tt), (tt, tt))),
)

-- The priorities up to one, and those behind it.
abbrev pub up_to : Priority → List Priority
up_to Priority.critical = Priority.critical ∷ []
up_to Priority.high = Priority.critical ∷ Priority.high ∷ []
up_to Priority.medium = Priority.critical ∷ Priority.high ∷ Priority.medium ∷ []
up_to Priority.low = priorities

abbrev pub behind : Priority → List Priority
behind Priority.critical = Priority.high ∷ Priority.medium ∷ Priority.low ∷ []
behind Priority.high = Priority.medium ∷ Priority.low ∷ []
behind Priority.medium = Priority.low ∷ []
behind Priority.low = []

module _ {T Q : Type 0} (c : ConcurrentQueue T Q) where
  -- What the queues of the given priorities hold, in that order.
  abbrev pub held : List Priority → PriorityQueue Q → List T
  held [] q = []
  held (p ∷ ps) q = c.contents (at p q) ++ held ps q

  -- What a priority queue holds, in the order in which it is to come out.
  abbrev pub waiting : PriorityQueue Q → List T
  waiting = held priorities

  held-put :
      (p : Priority) (ps : List Priority) (x : Q) (q : PriorityQueue Q)
      → Absent p ps
      → held ps (put p x q) ≡ held ps q
  held-put p [] x q h = refl
  held-put p (r ∷ ps) x q h = rw (at-put_ne p r x q h.0, held-put p ps x q h.1)

  -- The loop leaves the queues of other priorities alone.
  at-dequeue_loop :
      (ps : List Priority) (max : ℕ) (out : List T) (q : PriorityQueue Q) (r : Priority)
      → Absent r ps
      → at r (dequeue_loop c ps max out q).1 ≡ at r q
  unfolding dequeue_loop
  at-dequeue_loop [] max out q r h = refl
  at-dequeue_loop (p ∷ ps) max out q r h = elim (Bool-cases (leb max (length out))) [
    | inl full ↦ rw (full, dequeue_loop)
    | inr more ↦
        rw (more, dequeue_loop)
          (at-dequeue_loop ps max _ _ r h.1 ∙ at-put_ne p r _ q (λ e. h.0 (sym e)))
  ]

  abbrev Drains : List Priority → ℕ → List T → PriorityQueue Q → List T × PriorityQueue Q → Type 0
  Drains ps max out q r =
      (r.0 ≡ out ++ take (max - length out) (held ps q))
      × (held ps r.1 ≡ drop (max - length out) (held ps q))

  dequeue_loop-Drains :
      (ps : List Priority) (max : ℕ) (out : List T) (q : PriorityQueue Q)
      → Distinct ps
      → length out ≤ max
      → Drains ps max out q (dequeue_loop c ps max out q)
  unfolding dequeue_loop
  dequeue_loop-Drains [] max out q d h = (
    rw (take-nil T (max - length out)) (sym (append-nil out)),
    sym (drop-nil T (max - length out)),
  )
  dequeue_loop-Drains (p ∷ ps) max out q d h = elim (Bool-cases (leb max (length out))) [
    | inl full ↦
        let none_left : max - length out ≡ 0 = ground arith in
        rw (full, dequeue_loop, none_left) (sym (append-nil out), refl)
    | inr more ↦
        let k = max - length out in
        let taken = c.dequeued k (at p q) in
        let next = put p (c.try_dequeue_bulk k (at p q)).1 q in
        let items = (c.try_dequeue_bulk k (at p q)).0 in
        let size : length items ≡ min k (length (c.contents (at p q))) =
          ap (λ (l : List T). length l) taken ∙ length-take k (c.contents (at p q)) in
        let room : max - length (out ++ items) ≡ k - length (c.contents (at p q)) =
          omega (arith, length-append out items, size, h) in
        let same = held-put p ps (c.try_dequeue_bulk k (at p q)).1 q d.0 in
        let ih =
          dequeue_loop-Drains ps max (out ++ items) next d.1
            (omega (arith, length-append out items, size, h)) in
        let own = at-dequeue_loop ps max (out ++ items) next p d.0 ∙ at-put_self p _ q in
        rw (more, dequeue_loop)
          (
            ih.0
                ∙ rw
                    (
                      room,
                      same,
                      take-append k (c.contents (at p q)) (held ps q),
                      taken,
                      append_assoc out,
                    )
                    refl,
            ap₂ ◌++◌ (ap c.contents own ∙ c.left k (at p q)) (ih.1 ∙ rw (room, same) refl)
                ∙ sym (drop-append k (c.contents (at p q)) (held ps q)),
          )
  ]

  -- A bulk dequeue takes what waits from the front, urgent messages first and each priority in the
  -- order in which it was filled, up to `max` messages, and leaves the rest.
  pub try_dequeue_bulk-waiting :
      (max : ℕ) (q : PriorityQueue Q)
      → let r = try_dequeue_bulk c max q in
        (r.0 ≡ take max (waiting q)) × (waiting r.1 ≡ drop max (waiting q))
  unfolding try_dequeue_bulk
  try_dequeue_bulk-waiting max q =
      let e : max - 0 ≡ max = omega arith in
      let r = dequeue_loop-Drains priorities max [] q priorities-Distinct (omega arith) in
      (r.0 ∙ ap (λ k. take k (waiting q)) e, r.1 ∙ ap (λ k. drop k (waiting q)) e)

  -- A message that was enqueued comes out behind all that waits at its priority or a more urgent one,
  -- and before all the rest.
  waiting-enqueue :
      (t : T) (p : Priority) (q : PriorityQueue Q)
      → (enqueue c t p q).0 ≡ true
      → waiting (enqueue c t p q).1 ≡ held (up_to p) q ++ t ∷ held (behind p) q
  unfolding enqueue at put
  waiting-enqueue t Priority.critical q done =
      rw (c.contents-enqueue t q.critical done) (simp (append_assoc, append-nil))
  waiting-enqueue t Priority.high q done =
      rw (c.contents-enqueue t q.high done) (simp (append_assoc, append-nil))
  waiting-enqueue t Priority.medium q done =
      rw (c.contents-enqueue t q.medium done) (simp (append_assoc, append-nil))
  waiting-enqueue t Priority.low q done =
      rw (c.contents-enqueue t q.low done) (simp (append_assoc, append-nil))
