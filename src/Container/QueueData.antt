-- ===== src/Container/QueueData.antt =====
-- CXContainer/src/CXQueueData.cpp. The nodes are struct cx_list_node; the fields `next`, `prev` and
-- `value` of all nodes are functions from addresses, and `allocated` is the first address that no
-- block has taken. A null pointer is none. An operation is none where the source dereferences a null
-- pointer or writes past a block; otherwise it gives its result beside the new state.
-- The argument of Bool type says whether operator new succeeds.
pub mod Invariant
pub mod Blocks
pub mod Allocating
pub mod Links
pub mod Push
pub mod Unlink
pub mod Pop
pub mod Life
use konsan_net.Prelude.{
  ℕ, zero, suc, ◌+◌, ◌-◌, ◌*◌, ◌%◌, ◌^◌, Bool, true, false, ◌||◌, not, Option, none, some, List, [],
  ◌∷◌, ◌++◌, ltb, leb, if◌then◌else◌, add32, sub32,
}
use konsan_net.Chain.{set_at}

pub record QueueData : Type 0 where
  pub list_head : Option ℕ
  pub list_end : Option ℕ
  pub empty_list_head : Option ℕ
  pub empty_list_end : Option ℕ
  pub blocks : List ℕ
  pub number_of_using_nodes : ℕ
  pub number_of_empty_nodes : ℕ
  pub number_of_blocks : ℕ
  pub init_size : ℕ
  pub inited : Bool
  pub next : ℕ → Option ℕ
  pub prev : ℕ → Option ℕ
  pub value : ℕ → ℕ
  pub allocated : ℕ

-- CXQueueData::CXQueueData, over a memory that holds nothing yet.
unfoldable pub new_queue_data : QueueData
new_queue_data = record {
  list_head = none;
  list_end = none;
  empty_list_head = none;
  empty_list_end = none;
  blocks = [];
  number_of_using_nodes = 0;
  number_of_empty_nodes = 0;
  number_of_blocks = 0;
  init_size = 10240;
  inited = false;
  next = λ _. none;
  prev = λ _. none;
  value = λ _. 0;
  allocated = 0;
}

-- A node of a zeroed block, its links set.
unfoldable pub link_node : ℕ → Option ℕ → Option ℕ → QueueData → QueueData
link_node a p n q = record q {
  next = set_at q.next a n;
  prev = set_at q.prev a p;
  value = set_at q.value a 0;
}

-- The loop that links the nodes of a zeroed block: the node at `a`, after `p`, and `k` more.
unfoldable pub link_nodes : ℕ → ℕ → Option ℕ → QueueData → QueueData
link_nodes zero a p q = link_node a p none q
link_nodes (suc k) a p q = link_nodes k (suc a) (some a) (link_node a p (some (suc a)) q)

-- iBufferSize: an int from the product of two 32-bit numbers and the header's 16 bytes.
unfoldable pub buffer_size : ℕ → ℕ
buffer_size n = (24 * n % 2 ^ 32 + 16) % 2 ^ 32

-- The block list and the counters with the block at `base`, whose last node ends the empty list.
unfoldable pub add_block : ℕ → QueueData → QueueData
add_block base q = record q {
  blocks = q.blocks ++ base ∷ [];
  number_of_blocks = add32 q.number_of_blocks 1;
  number_of_empty_nodes = add32 q.number_of_empty_nodes q.init_size;
  empty_list_end = some (base + (q.init_size - 1));
  allocated = base + q.init_size;
}

-- The block at `base`, linked behind the empty list.
unfoldable pub append_block : ℕ → QueueData → Option QueueData
append_block base q = elim q.empty_list_head [
  | none ↦ some (record (add_block base q) { empty_list_head = some base })
  | some h ↦ elim q.empty_list_end [
    | none ↦ none
    | some e ↦ some (record (add_block base q) {
      next = set_at q.next e (some base);
      prev = set_at q.prev base (some e);
    })
  ]
]

-- CXQueueData::AllocateMemoryBlock: false is the return value -1. A negative size makes new throw;
-- a size that wrapped, or a list of fewer than two nodes, is written past its end.
unfoldable pub allocate_memory_block : Bool → QueueData → Option (Bool × QueueData)
allocate_memory_block succeeds q =
    let size = buffer_size q.init_size in
    let linked = link_nodes (q.init_size - 1) q.allocated none q in
    if not succeeds || leb (2 ^ 31) size
    then some (false, q)
    else if ltb size (24 * q.init_size + 16) || ltb q.init_size 2
    then none
    else elim (append_block q.allocated linked) [ none ↦ none | some r ↦ some (true, r) ]

-- CXQueueData::Init: true is the return value 0.
unfoldable pub init : Bool → ℕ → QueueData → Option (Bool × QueueData)
init succeeds size q =
    if q.inited
    then some (true, q)
    else elim (allocate_memory_block succeeds (record q { init_size = size })) [
      | none ↦ none
      | some (true, r) ↦ some (true, record r { inited = true })
      | some (false, r) ↦ some (false, r)
    ]

-- CXQueueData::GetNode: the node taken from the empty list, none in the result for NULL.
unfoldable pub take_node : ℕ → QueueData → QueueData
take_node a q =
    let rest = q.next a in
    record q {
      empty_list_head = rest;
      next = set_at q.next a none;
      prev = set_at (elim rest [ none ↦ q.prev | some h ↦ set_at q.prev h none ]) a none;
      value = set_at q.value a 0;
      number_of_empty_nodes = sub32 q.number_of_empty_nodes 1;
    }

unfoldable pub get_node : Bool → QueueData → Option (Option ℕ × QueueData)
get_node succeeds q = if not q.inited then some (none, q) else elim q.empty_list_head [
  | some a ↦ some (some a, take_node a q)
  | none ↦ elim (allocate_memory_block succeeds q) [
    | none ↦ none
    | some (false, r) ↦ some (none, r)
    | some (true, r) ↦ elim r.empty_list_head [
      | none ↦ none
      | some a ↦ elim (r.next a) [ none ↦ none | some h ↦ some (some a, take_node a r) ]
    ]
  ]
]

-- CXQueueData::FreeNode. Without an end pointer only the head is assigned, twice.
unfoldable pub free_node : ℕ → QueueData → QueueData
free_node a q =
    let cleared = set_at q.next a none in
    if not q.inited then q else elim q.empty_list_end [
      | some e ↦ record q {
        next = set_at cleared e (some a);
        prev = set_at q.prev a (some e);
        empty_list_end = some a;
        number_of_empty_nodes = add32 q.number_of_empty_nodes 1;
      }
      | none ↦ record q {
        next = cleared;
        prev = set_at q.prev a none;
        empty_list_head = some a;
        number_of_empty_nodes = add32 q.number_of_empty_nodes 1;
      }
    ]

-- The node `a` with its data, put at the end of the list.
unfoldable pub link_last : ℕ → ℕ → QueueData → QueueData
link_last a d q =
    let filled : QueueData = record q {
      value = set_at q.value a d;
      number_of_using_nodes = add32 q.number_of_using_nodes 1;
    } in
    elim q.list_end [
      | some e ↦ record filled {
        prev = set_at q.prev a (some e);
        next = set_at q.next e (some a);
        list_end = some a;
      }
      | none ↦ record filled { list_end = some a; list_head = some a }
    ]

-- CXQueueData::Push
unfoldable pub push_inited : Bool → ℕ → QueueData → Option (Bool × QueueData)
push_inited succeeds d q = elim (get_node succeeds q) [
  | none ↦ none
  | some (none, r) ↦ some (false, r)
  | some (some a, r) ↦ some (true, link_last a d r)
]

unfoldable pub push : Bool → ℕ → QueueData → Option (Bool × QueueData)
push succeeds d q = if q.inited then push_inited succeeds d q else elim (init succeeds 10240 q) [
  | none ↦ none
  | some (false, r) ↦ some (false, r)
  | some (true, r) ↦ push_inited succeeds d r
]

-- CXQueueData::PopFront: NULL, which is 0, where the list is empty.
unfoldable pub unlink_first : ℕ → QueueData → QueueData
unlink_first a q = elim (q.next a) [
  | none ↦ record q {
    list_head = none;
    list_end = none;
    number_of_using_nodes = sub32 q.number_of_using_nodes 1;
  }
  | some h ↦ record q {
    list_head = some h;
    prev = set_at q.prev h none;
    number_of_using_nodes = sub32 q.number_of_using_nodes 1;
  }
]

unfoldable pub pop_front : QueueData → ℕ × QueueData
pop_front q = elim q.list_head [
  | none ↦ (0, q)
  | some a ↦ (q.value a, free_node a (unlink_first a q))
]

-- CXQueueData::Front
unfoldable pub front : QueueData → ℕ
front q = elim q.list_head [ none ↦ 0 | some a ↦ q.value a ]

-- CXQueueData::Clear. On the second branch the source reads through `m_pEmptyListEnd->pNext`.
unfoldable pub clear : QueueData → Option QueueData
clear q =
    let emptied : QueueData = record q {
      empty_list_end = q.list_end;
      list_head = none;
      list_end = none;
      number_of_empty_nodes = add32 q.number_of_empty_nodes q.number_of_using_nodes;
      number_of_using_nodes = 0;
    } in
    elim q.empty_list_head [
      | none ↦ some (record emptied { empty_list_head = q.list_head })
      | some h ↦ elim q.empty_list_end [
        | none ↦ none
        | some e ↦ elim q.list_head [
          | none ↦ none
          | some a ↦
              some (record emptied {
                next = set_at q.next e (some a);
                prev = set_at q.prev a (some e);
              })
        ]
      ]
    ]

-- CXQueueData::Destroy
unfoldable pub destroy : QueueData → QueueData
destroy q = if not q.inited then q else record q {
  list_head = none;
  list_end = none;
  empty_list_head = none;
  empty_list_end = none;
  blocks = [];
  number_of_using_nodes = 0;
  number_of_empty_nodes = 0;
  number_of_blocks = 0;
  init_size = 10240;
  inited = false;
}
