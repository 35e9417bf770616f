-- ===== src/Queue/Priority.antt =====
-- pkg/reef/server/priority_queue.go: the priority queue that the server runs on, with the sifting of
-- Go's container/heap that it calls. An item (`*pqItem`) is a pointer; its fields are functions of it.
-- The id of a task never changes, so an item carries it beside the task's pointer. A slice is its
-- length and its elements by index. The fuel of a loop is a bound on the indices that it visits.
pub mod Order
pub mod Sift
pub mod Content
pub mod Queue
pub mod Same
pub mod Removal
pub mod Insertion
pub mod Invariant
pub mod Operations
pub mod Boost
pub mod Laws
pub mod Persistent
pub mod Restore
use reef.Prelude.{
  ℕ, zero, suc, ◌+◌, ◌-◌, ◌*◌, ◌/◌, Bool, true, false, not, ◌&&◌, ◌||◌, List, [], ◌∷◌, Option, none,
  some, String, lookup, insert, delete, update, ltb, leb, ◌==◌, if◌then◌else◌,
}
use reef.Prelude.Int.{ℤ, pos, negsuc, ltb_ℤ, eqb_ℤ, ◌+ℤ◌}
use reef.Task.{Task}
use reef.Queue.{default_unless_positive, default_max_age, is_old}
use reef.Queue.Interface.{QueueOps}

pub record PqItems : Type 0 where
  pub task : ℕ → ℕ
  pub task_id : ℕ → String
  pub priority : ℕ → ℤ
  pub seq : ℕ → ℕ

-- `priorityHeap`, with the field `index` of the items, which the heap maintains.
pub record PriorityHeap : Type 0 where
  pub len : ℕ
  pub slots : ℕ → ℕ
  pub index : ℕ → ℤ

-- `Less` on the items: the higher priority first, then the earlier insertion.
unfoldable pub precedes : PqItems → ℕ → ℕ → Bool
precedes it a b =
    if not (eqb_ℤ (it.priority a) (it.priority b))
    then ltb_ℤ (it.priority b) (it.priority a)
    else ltb (it.seq a) (it.seq b)

abbrev pub exchange : ℕ → ℕ → (ℕ → ℕ) → ℕ → ℕ
exchange i j s = update (update s i (s j)) j (s i)

-- `Swap`
unfoldable pub swap : ℕ → ℕ → PriorityHeap → PriorityHeap
swap i j h = record h {
  slots = exchange i j h.slots;
  index = update (update h.index (h.slots j) (pos i)) (h.slots i) (pos j);
}

-- `Push` of the item `a`
unfoldable pub append : ℕ → PriorityHeap → PriorityHeap
append a h = record h {
  len = h.len + 1;
  slots = update h.slots h.len a;
  index = update h.index a (pos h.len);
}

-- `Pop`: the last item
unfoldable pub drop_last : PriorityHeap → PriorityHeap × ℕ
drop_last h =
    let a = h.slots (h.len - 1) in
    (record h { len = h.len - 1; index = update h.index a (negsuc 0) }, a)

abbrev pub parent : ℕ → ℕ
parent j = (j - 1) / 2

-- The loop of `up` in container/heap.
unfoldable pub up_loop : ℕ → PqItems → ℕ → PriorityHeap → PriorityHeap
unfolding swap
up_loop zero it j h = h
up_loop (suc fuel) it j h =
    let i = parent j in
    if i == j || not (precedes it (h.slots j) (h.slots i))
    then h
    else up_loop fuel it i (swap i j h)

unfoldable pub up : PqItems → ℕ → PriorityHeap → PriorityHeap
unfolding up_loop
up it j h = up_loop (j + 1) it j h

-- One round of `down`: the child that the item at `i` sinks to, if it does.
unfoldable pub sinks_to : PqItems → ℕ → ℕ → (ℕ → ℕ) → Option ℕ
sinks_to it n i s =
    let left = 2 * i + 1 in
    let j = if ltb (left + 1) n && precedes it (s (left + 1)) (s left) then left + 1 else left in
    if leb n left then none else if precedes it (s j) (s i) then some j else none

-- The loop of `down`, with the index where the item ends.
unfoldable pub down_loop : ℕ → PqItems → ℕ → ℕ → PriorityHeap → PriorityHeap × ℕ
unfolding sinks_to swap
down_loop zero it n i h = (h, i)
down_loop (suc fuel) it n i h = elim (sinks_to it n i h.slots) [
  | none ↦ (h, i)
  | some j ↦ down_loop fuel it n j (swap i j h)
]

-- `down`: whether the item moved
unfoldable pub down : PqItems → ℕ → ℕ → PriorityHeap → PriorityHeap × Bool
unfolding down_loop
down it i n h = let (h', i') = down_loop n it n i h in (h', ltb i i')

-- `if !down(h, i, n) { up(h, i) }`
unfoldable pub sift : PqItems → ℕ → ℕ → PriorityHeap → PriorityHeap
unfolding down up
sift it i n h = let (h', moved) = down it i n h in if moved then h' else up it i h'

-- `heap.Push`
unfoldable pub heap_push : PqItems → ℕ → PriorityHeap → PriorityHeap
unfolding append up
heap_push it a h = up it h.len (append a h)

-- `heap.Pop`
unfoldable pub heap_pop : PqItems → PriorityHeap → PriorityHeap × ℕ
unfolding swap down drop_last
heap_pop it h = let n = h.len - 1 in drop_last (down it 0 n (swap 0 n h)).0

-- `heap.Remove`
unfoldable pub heap_remove : PqItems → ℕ → PriorityHeap → PriorityHeap × ℕ
unfolding swap sift drop_last
heap_remove it i h = let n = h.len - 1 in drop_last (if n == i then h else sift it i n (swap i n h))

-- `heap.Fix`
unfoldable pub heap_fix : PqItems → ℕ → PriorityHeap → PriorityHeap
unfolding sift
heap_fix it i h = sift it i h.len h
