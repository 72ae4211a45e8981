-- ===== src/Time/Timer.antt =====
-- time/cort_timeout_waiter.cpp, `cort_timer`: a heap of lists of timers, one list for each timeout.
-- A `timeout_list` is named by its timeout, which is its index in `short_timer_search` or its key in
-- `long_timer_search`; its members are functions of that name. A list that is not in the map has the
-- members that the map's default constructor gives. `realloc` succeeds.
pub mod Links
pub mod Order
pub mod Invariant
pub mod Removal
pub mod Next
pub mod Adding
use cort_proto.Prelude.{
  ℕ, zero, suc, ◌+◌, ◌-◌, ◌*◌, ◌/◌, ◌%◌, ◌^◌, Bool, true, false, ◌&&◌, ◌||◌, List, [], ◌∷◌, Option,
  some, none, if◌then◌else◌, ltb, leb, ◌==◌, update,
}
use cort_proto.Prelude.Words.{add64, sub64, npos}

-- `cort_timeout_waiter_data`; `node` is its address, and stands for `pos` too.
pub record Entry : Type 0 where
  pub node : ℕ
  pub waiter : ℕ
  pub end_time : ℕ
  pub host_list : ℕ

pub record Timer : Type 0 where
  pub timer_heap : ℕ → ℕ
  pub timer_size : ℕ
  pub timer_capacity : ℕ
  -- the members of the timeout lists
  pub entries : ℕ → List Entry
  pub timeout : ℕ → ℕ
  pub heap_pos : ℕ → ℕ
  -- the address of the next list node
  pub next_node : ℕ

abbrev pub short_timer_list_size : ℕ
short_timer_list_size = 4096

abbrev pub heap_size_delta : ℕ
heap_size_delta = 64

-- `data->back().end_time`; the code never asks it of an empty list.
abbrev pub back_time : List Entry → ℕ
back_time [] = 0
back_time (e ∷ []) = e.end_time
back_time (e ∷ (d ∷ es)) = back_time (d ∷ es)

-- `data->back()`
abbrev pub back : List Entry → Option Entry
back [] = none
back (e ∷ []) = some e
back (e ∷ (d ∷ es)) = back (d ∷ es)

-- `data->empty()`
abbrev pub is_empty : List Entry → Bool
is_empty [] = true
is_empty (e ∷ es) = false

-- `data->erase(pos)`
pub erase : ℕ → List Entry → List Entry
erase node [] = []
erase node (e ∷ es) = if e.node == node then es else e ∷ erase node es

-- The end time by which the heap orders a list.
abbrev pub key : Timer → ℕ → ℕ
key t id = back_time (t.entries id)

-- `timer_heap[pos] = id; id->heap_pos = pos;`
abbrev pub place : Timer → ℕ → ℕ → Timer
place t pos id = record t {
  timer_heap = update t.timer_heap pos id;
  heap_pos = update t.heap_pos id pos;
}

-- `cort_timer(capacity)`, over the memory that `malloc` returned.
unfoldable pub create : (ℕ → ℕ) → ℕ → Timer
create block capacity = record {
  timer_heap = block;
  timer_size = 0;
  timer_capacity = capacity;
  entries = λ _. [];
  timeout = λ i. if ltb i short_timer_list_size then i else 0;
  heap_pos = λ _. npos;
  next_node = 1;
}

unfoldable pub get_next_timer : Timer → Option Entry
get_next_timer t = if t.timer_size == 0 then none else back (t.entries (t.timer_heap 0))

-- The `do` loop of `up_update_heap`: the heap with a hole, and the place of the hole.
unfoldable pub up_loop : ℕ → ℕ → ℕ → Timer → Timer × ℕ
up_loop zero old_pos my_time t = (t, old_pos)
up_loop (suc fuel) old_pos my_time t =
    let new_pos = old_pos / 2 in
    elim (old_pos == 0) [
      | true ↦ (t, old_pos)
      | false ↦ elim (ltb my_time (key t (t.timer_heap new_pos))) [
        | true ↦ up_loop fuel new_pos my_time (place t old_pos (t.timer_heap new_pos))
        | false ↦ (t, old_pos)
      ]
    ]

-- The end of both updates: a list that has left `pos` is put where the loop stopped.
unfoldable pub settle : ℕ → ℕ → Timer × ℕ → Timer × Bool
settle pos pos_data (t, old_pos) =
    if old_pos == pos then (t, false) else (place t old_pos pos_data, true)

unfoldable pub up_update_heap : ℕ → ℕ → Timer → Timer × Bool
unfolding up_loop settle
up_update_heap pos my_time t = settle pos (t.timer_heap pos) (up_loop pos pos my_time t)

pub left_child : ℕ → ℕ
left_child pos = add64 (pos * 2 % 2 ^ 64) 1

-- The child of `pos` that is due first, where `pos` has a child.
pub least_child : ℕ → Timer → ℕ
unfolding left_child
least_child pos t =
    let left_pos = left_child pos in
    let right_pos = add64 left_pos 1 in
    if ltb right_pos t.timer_size
      && ltb (key t (t.timer_heap right_pos)) (key t (t.timer_heap left_pos))
    then right_pos
    else left_pos

-- The `while` loop of `down_update_heap`.
pub down_loop : ℕ → ℕ → ℕ → Timer → Timer × ℕ
down_loop zero old_pos my_time t = (t, old_pos)
down_loop (suc fuel) old_pos my_time t =
    let child = least_child old_pos t in
    elim (leb t.timer_size (left_child old_pos)) [
      | true ↦ (t, old_pos)
      | false ↦ elim (ltb (key t (t.timer_heap child)) my_time) [
        | true ↦ down_loop fuel child my_time (place t old_pos (t.timer_heap child))
        | false ↦ (t, old_pos)
      ]
    ]

pub down_update_heap : ℕ → ℕ → Timer → Timer × Bool
unfolding down_loop left_child least_child settle
down_update_heap pos my_time t =
    settle pos (t.timer_heap pos) (down_loop t.timer_size pos my_time t)

-- The `realloc` at the start of `add_time_out`.
unfoldable pub reserve : Timer → Timer
reserve t =
    if t.timer_size == t.timer_capacity
    then record t { timer_capacity = add64 t.timer_capacity heap_size_delta }
    else t

unfoldable pub add_time_out : ℕ → ℕ → Timer → Timer
add_time_out pos_data time_out t =
    let t' = place (reserve t) t.timer_size pos_data in
    (up_update_heap t.timer_size time_out (record t' { timer_size = add64 t.timer_size 1 })).0

-- `long_timer_search.erase(...)`, or the reset of a list of `short_timer_search`.
pub forget : ℕ → Timer → Timer
forget pos_data t =
    if leb short_timer_list_size (t.timeout pos_data)
    then record t {
      entries = update t.entries (t.timeout pos_data) [];
      timeout = update t.timeout (t.timeout pos_data) 0;
      heap_pos = update t.heap_pos (t.timeout pos_data) npos;
    }
    else record t { heap_pos = update t.heap_pos pos_data npos }

-- The last list takes the free place at `pos`.
pub fill : ℕ → Timer → Timer
fill pos t =
    if t.timer_size == 0 || pos == t.timer_size
    then t
    else (let last = t.timer_heap t.timer_size in
        (down_update_heap pos (key t last) (place t pos last)).0)

pub remove_time_out : ℕ → Timer → Timer
remove_time_out pos t =
    let pos_data = t.timer_heap pos in
    if is_empty (t.entries pos_data)
    then forget pos_data (fill pos (record t { timer_size = sub64 t.timer_size 1 }))
    else (down_update_heap pos (key t pos_data) t).0

-- `get_timeout_list` sets the timeout of a long list each time.
unfoldable pub get_timeout_list : ℕ → Timer → Timer
get_timeout_list timeout t =
    if ltb timeout short_timer_list_size
    then t
    else record t { timeout = update t.timeout timeout timeout }

-- The timer's node, with which it is removed, and the heap.
unfoldable pub add_timer : ℕ → ℕ → ℕ → Timer → Entry × Timer
add_timer timer timeout now t =
    let found = get_timeout_list timeout t in
    let result : Entry = record {
      node = found.next_node;
      waiter = timer;
      end_time = add64 now timeout;
      host_list = timeout;
    } in
    let pushed = record found {
      entries = update found.entries timeout (result ∷ found.entries timeout);
      next_node = found.next_node + 1;
    } in
    (
      result,
      if pushed.heap_pos timeout == npos
          then add_time_out timeout (add64 now timeout) pushed
          else pushed,
    )

-- Whether the node is the last of the list.
pub is_back : ℕ → List Entry → Bool
is_back node es = elim (back es) [ none ↦ false | some e ↦ e.node == node ]

pub remove_timer : Entry → Timer → Timer
remove_timer e t =
    let old_pos = t.heap_pos e.host_list in
    let erased = record t {
      entries = update t.entries e.host_list (erase e.node (t.entries e.host_list));
    } in
    if is_back e.node (t.entries e.host_list) then remove_time_out old_pos erased else erased
