-- ===== src/IntrusiveList.antt =====
-- src/AsyncTCPSimpleIntrusiveList.h: the singly linked list with a tail pointer that carries the
-- event queue. A node is known by its address, 0 is the null pointer, and `next` holds every
-- node's `next` field. `_tail` points at a pointer: at `_head` or at some node's `next` field.
pub mod Chain
pub mod Push
mod Apart
pub mod Remove
pub mod Refinement
mod Tests
use async_tcp.Prelude.{
  ℕ, zero, suc, ◌+◌, ◌-◌, Bool, true, false, Option, none, some, List, [], ◌∷◌, ◌==◌, if◌then◌else◌,
}

pub data Slot : Type 0 where
  head_slot : Slot
  next_slot : ℕ → Slot

-- The list object (`_head`, `_tail`, `_size`) and the `next` fields of the nodes.
pub record Store : Type 0 where
  pub next : ℕ → ℕ
  pub head : ℕ
  pub tail : Slot
  pub size : ℕ

-- The `next` fields after `p->next = q`.
abbrev pub update : (ℕ → ℕ) → ℕ → ℕ → ℕ → ℕ
update next p q r = if r == p then q else next r

abbrev pub load : Store → Slot → ℕ
load s head_slot = s.head
load s (next_slot p) = s.next p

abbrev pub store : Store → Slot → ℕ → Store
store s head_slot q = record s { head = q }
store s (next_slot p) q = record s { next = update s.next p q }

pub slot_eq : Slot → Slot → Bool
slot_eq head_slot head_slot = true
slot_eq (next_slot p) (next_slot q) = p == q
slot_eq _ _ = false

pub push_back : Store → ℕ → Store
push_back s obj =
    let linked = store s s.tail obj in
    if obj == 0 then s else record linked { tail = next_slot obj; size = s.size + 1 }

pub push_front : Store → ℕ → Store
push_front s obj = if obj == 0 then s else (record s {
  tail = if s.head == 0 then next_slot obj else s.tail;
  next = update s.next obj s.head;
  head = obj;
  size = s.size + 1;
})

-- The node taken off, and the list without it.
pub pop_front : Store → ℕ × Store
unfolding slot_eq
pop_front s = if s.head == 0 then (s.head, s) else (
  s.head,
  record s {
    tail = if slot_eq s.tail (next_slot s.head) then head_slot else s.tail;
    head = s.next s.head;
    size = s.size - 1;
  },
)

-- `list_size` walks a chain; `none` when the fuel runs out.
pub list_size : ℕ → (ℕ → ℕ) → ℕ → ℕ → Option ℕ
list_size zero next c count = none
list_size (suc k) next c count =
    let rest = list_size k next (next c) (count + 1) in if c == 0 then some count else rest

-- The nodes that `delete_list` frees, in the order in which it frees them.
pub delete_list : ℕ → (ℕ → ℕ) → ℕ → Option (List ℕ)
delete_list zero next chain = none
delete_list (suc k) next chain =
    let rest = delete_list k next (next chain) in
    if chain == 0 then some [] else elim rest [ none ↦ none | some freed ↦ some (chain ∷ freed) ]

-- `clear`: what is freed, and the empty list.
pub clear : ℕ → Store → Option (List ℕ × Store)
clear k s = elim (delete_list k s.next s.head) [
  | none ↦ none
  | some freed ↦ some (freed, record s { head = 0; tail = head_slot; size = 0 })
]

-- One round of `remove_if` at a node that meets the condition.
pub unlink : Store → Slot → ℕ → ℕ → Store
unlink s at current removed =
    let moved = store s at (s.next current) in
    record moved {
      tail = if moved.next current == 0 then at else moved.tail;
      size = moved.size - 1;
      next = update moved.next current removed;
    }

-- The list left, and the head of the chain of the nodes removed.
pub remove_loop : (ℕ → Bool) → ℕ → Store → Slot → ℕ → Option (Store × ℕ)
remove_loop condition zero s at removed = none
remove_loop condition (suc k) s at removed =
    let current = load s at in
    let drop = remove_loop condition k (unlink s at current removed) at current in
    let keep = remove_loop condition k s (next_slot current) removed in
    if current == 0 then some (s, removed) else (if condition current then drop else keep)

pub remove_if : (ℕ → Bool) → ℕ → Store → Option (Store × ℕ)
remove_if condition k s = remove_loop condition k s head_slot 0

-- The last node's address, for `validate_tail`.
pub last_node : ℕ → (ℕ → ℕ) → ℕ → Option ℕ
last_node zero next p = none
last_node (suc k) next p =
    let rest = last_node k next (next p) in if next p == 0 then some p else rest

pub validate_tail : ℕ → Store → Option Bool
unfolding slot_eq
validate_tail k s =
    if s.head == 0 then some (slot_eq s.tail head_slot) else elim (last_node k s.next s.head) [
      | none ↦ none
      | some p ↦ some (slot_eq s.tail (next_slot p))
    ]
