-- ===== src/Tests/Parts.antt =====
-- The theorems about the header, the queues and the store, with concrete parameters.
use embkv.Base.{
  ℕ, zero, suc, ◌≡◌, refl, ap, Bool, true, false, Option, none, some, List, [], ◌∷◌, ◌++◌, arith,
  length, take, drop, if◌then◌else◌,
}
use embkv.Proto.{Bytes, KvOperation, OperationType, ClientRequest}
use embkv.Queue.{ConcurrentQueue, PriorityQueue, at, try_dequeue_bulk}
use embkv.Queue.Order.{try_dequeue_bulk-waiting}
use embkv.Store.{Sqlite, Codec, IsUtf8, get, services}
use embkv.Store.Text.{bytes_eq}
use embkv.Store.Refine.{get-apply_all, entries_of}
use embkv.Node.Apply.Machine.{apply_all}

never_failed : {q r : List ℕ} → true ≡ false → r ≡ q
never_failed e = cc

-- A list is such a queue.
abbrev list_queue : ConcurrentQueue ℕ (List ℕ)
list_queue = record {
  enqueue = λ t q. (true, q ++ t ∷ []);
  enqueue_bulk = λ ts q. (true, q ++ ts);
  try_dequeue_bulk = λ k q. (take k q, drop k q);
  size_approx = λ q. length q;
  contents = λ q. q;
  contents-enqueue = λ t q _. refl;
  contents-enqueue_failed = λ t q e. never_failed e;
  contents-enqueue_bulk = λ ts q _. refl;
  dequeued = λ k q. refl;
  left = λ k q. refl;
  size_contents = λ q. refl;
}

abbrev busy : PriorityQueue (List ℕ)
busy = record { critical = 1 ∷ []; high = 2 ∷ 3 ∷ []; medium = 4 ∷ []; low = [] }

try_dequeue_bulk-waiting_example : (try_dequeue_bulk list_queue 2 busy).0 ≡ 1 ∷ 2 ∷ []
unfolding at
try_dequeue_bulk-waiting_example = (try_dequeue_bulk-waiting list_queue 2 busy).0

-- A table as a list of its rows, the newest first; a deleted key is a row without a value.
abbrev pub Rows : Type 0
Rows = List (Bytes × Option Bytes)

pub find_row : Bytes → Rows → Option Bytes
find_row k [] = none
find_row k ((j, v) ∷ rows) = if bytes_eq j k then v else find_row k rows

abbrev pub rows : Sqlite Rows
unfolding find_row
rows = record {
  replace = λ k v db. (k, some v) ∷ db;
  delete = λ k db. (k, none) ∷ db;
  select = find_row;
  select-replace = λ k v j db _ _ _. refl;
  select-delete = λ k j db _ _. refl;
}

-- An encoding of the messages as lists of numbers.
tag : OperationType → ℕ
tag OperationType.put = 0
tag OperationType.delete = 1
tag OperationType.get = 2
tag (OperationType.unknown n) = suc (suc (suc n))

type_of : ℕ → OperationType
type_of zero = OperationType.put
type_of (suc zero) = OperationType.delete
type_of (suc (suc zero)) = OperationType.get
type_of (suc (suc (suc n))) = OperationType.unknown n

type_of-tag : (t : OperationType) → type_of (tag t) ≡ t
unfolding type_of tag
type_of-tag OperationType.put = refl
type_of-tag OperationType.delete = refl
type_of-tag OperationType.get = refl
type_of-tag (OperationType.unknown n) = refl

take-append_length : (xs ys : Bytes) → take (length xs) (xs ++ ys) ≡ xs
take-append_length [] ys = refl
take-append_length (x ∷ xs) ys = ap (λ l. x ∷ l) (take-append_length xs ys)

drop-append_length : (xs ys : Bytes) → drop (length xs) (xs ++ ys) ≡ ys
drop-append_length [] ys = refl
drop-append_length (x ∷ xs) ys = drop-append_length xs ys

pub read_operation : Bytes → Bool × KvOperation
read_operation (t ∷ n ∷ rest) =
    (true, record { op_type = type_of t; key = take n rest; value = drop n rest })
read_operation other = (false, record { op_type = OperationType.put; key = []; value = [] })

pub read_request : Bytes → Bool × ClientRequest
read_request [] = (false, record { request_id = 0; command = [] })
read_request (id ∷ rest) = (true, record { request_id = id; command = rest })

pub write_operation : KvOperation → Bytes
write_operation o = tag o.op_type ∷ length o.key ∷ o.key ++ o.value

pub read_operation-write_operation :
    (o : KvOperation) → read_operation (write_operation o) ≡ (true, o)
unfolding read_operation write_operation
read_operation-write_operation o = λ i. (
  true,
  record {
    op_type = type_of-tag o.op_type i;
    key = take-append_length o.key o.value i;
    value = drop-append_length o.key o.value i;
  },
)

abbrev pub numbers : Codec
unfolding read_request
numbers = record {
  serialize_request = λ r. r.request_id ∷ r.command;
  parse_request = read_request;
  serialize_operation = write_operation;
  parse_operation = read_operation;
  request_back = λ r. refl;
  valid_utf8 = λ text. true;
  empty_utf8 = refl;
  operation_back = λ o _ _. read_operation-write_operation o;
}

pub numbers-IsUtf8 : (text : Bytes) → IsUtf8 numbers text
unfolding numbers
numbers-IsUtf8 text = refl

abbrev puts : List (ℕ × ℕ × ℕ × KvOperation)
puts =
    (1, 1, 7, record { op_type = OperationType.put; key = 5 ∷ []; value = 6 ∷ [] })
    ∷ (1, 2, 8, record { op_type = OperationType.get; key = 5 ∷ []; value = [] })
    ∷ []

get-apply_all_example :
    get rows (5 ∷ []) (apply_all (services rows numbers) (entries_of rows numbers puts) [])
    ≡ some (6 ∷ [])
unfolding bytes_eq find_row read_request
get-apply_all_example =
    get-apply_all rows numbers puts [] (5 ∷ [])
      (
        ((omega arith, tt), (omega arith, tt), refl, refl),
        (((omega arith, tt), tt, refl, refl), tt),
      )
      (omega arith, tt)
