-- ===== src/Queue.antt =====
-- embkv/include/common/util/priorityqueue.h: four queues behind one.
pub mod Order
use embkv.Base.{ℕ, ◌-◌, ◌≡◌, Bool, true, false, List, [], ◌∷◌, ◌++◌, length, take, drop, leb, ◌==◌}
use embkv.Proto.{Priority}

-- What the code uses of moodycamel::ConcurrentQueue, and what its documentation promises of a queue
-- that one thread fills and one thread empties, once the writes of the former are visible: first
-- in, first out, and a bulk dequeue takes as many as there are, up to the number asked for.
-- `enqueue` fails where memory runs out, and then adds nothing.
pub record ConcurrentQueue (T Q : Type 0) : Type 0 where
  pub enqueue : T → Q → Bool × Q
  pub enqueue_bulk : List T → Q → Bool × Q
  pub try_dequeue_bulk : ℕ → Q → List T × Q
  pub size_approx : Q → ℕ
  pub contents : Q → List T
  pub contents-enqueue :
      (t : T) (q : Q) → (enqueue t q).0 ≡ true → contents (enqueue t q).1 ≡ contents q ++ t ∷ []
  pub contents-enqueue_failed :
      (t : T) (q : Q) → (enqueue t q).0 ≡ false → contents (enqueue t q).1 ≡ contents q
  pub contents-enqueue_bulk :
      (ts : List T) (q : Q)
      → (enqueue_bulk ts q).0 ≡ true
      → contents (enqueue_bulk ts q).1 ≡ contents q ++ ts
  pub dequeued : (k : ℕ) (q : Q) → (try_dequeue_bulk k q).0 ≡ take k (contents q)
  pub left : (k : ℕ) (q : Q) → contents (try_dequeue_bulk k q).1 ≡ drop k (contents q)
  pub size_contents : (q : Q) → size_approx q ≡ length (contents q)

-- std::array<Queue, 4>
pub record PriorityQueue (Q : Type 0) : Type 0 where
  pub critical : Q
  pub high : Q
  pub medium : Q
  pub low : Q

-- queues_[prio]
unfoldable pub at : {Q : Type 0} → Priority → PriorityQueue Q → Q
at Priority.critical q = q.critical
at Priority.high q = q.high
at Priority.medium q = q.medium
at Priority.low q = q.low

unfoldable pub put : {Q : Type 0} → Priority → Q → PriorityQueue Q → PriorityQueue Q
put Priority.critical x q = record q { critical = x }
put Priority.high x q = record q { high = x }
put Priority.medium x q = record q { medium = x }
put Priority.low x q = record q { low = x }

-- The order of the loop over `prio`.
abbrev pub priorities : List Priority
priorities = Priority.critical ∷ Priority.high ∷ Priority.medium ∷ Priority.low ∷ []

module _ {T Q : Type 0} (c : ConcurrentQueue T Q) where
  unfoldable pub enqueue : T → Priority → PriorityQueue Q → Bool × PriorityQueue Q
  unfolding at put
  enqueue item prio q = let (done, x) = c.enqueue item (at prio q) in (done, put prio x q)

  unfoldable pub enqueue_bulk : List T → Priority → PriorityQueue Q → Bool × PriorityQueue Q
  unfolding at put
  enqueue_bulk items prio q =
      let (done, x) = c.enqueue_bulk items (at prio q) in (done, put prio x q)

  -- The loop, with what it has written to the buffer so far.
  unfoldable pub dequeue_loop :
      List Priority → ℕ → List T → PriorityQueue Q → List T × PriorityQueue Q
  unfolding at put
  dequeue_loop [] max out q = (out, q)
  dequeue_loop (prio ∷ rest) max out q = elim (leb max (length out)) [
    | true ↦ (out, q)
    | false ↦
        let (items, x) = c.try_dequeue_bulk (max - length out) (at prio q) in
        dequeue_loop rest max (out ++ items) (put prio x q)
  ]

  unfoldable pub try_dequeue_bulk : ℕ → PriorityQueue Q → List T × PriorityQueue Q
  unfolding dequeue_loop
  try_dequeue_bulk max q = dequeue_loop priorities max [] q

  unfoldable pub size_approx : Priority → PriorityQueue Q → ℕ
  unfolding at
  size_approx prio q = c.size_approx (at prio q)

  unfoldable pub empty : Priority → PriorityQueue Q → Bool
  unfolding at
  empty prio q = c.size_approx (at prio q) == 0
