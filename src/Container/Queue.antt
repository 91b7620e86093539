-- ===== src/Container/Queue.antt =====
-- CXContainer/src/CXQueue.cpp. `current` is what m_pQueueData points to and `backup` what
-- m_pQueueDataBak does; the two pointers always name the two members of the object. An operation is
-- none where the source faults: by a division by zero in CompactMemory, or in CXQueueData.
pub mod Laws
pub mod Fifo
use konsan_net.Prelude.{
  ℕ, ◌+◌, ◌/◌, Bool, true, false, ◌&&◌, not, Option, none, some, ltb, leb, ◌==◌, if◌then◌else◌,
  add32,
}
use konsan_net.Container.QueueData
use konsan_net.Container.QueueData.{QueueData, new_queue_data}

pub record Queue : Type 0 where
  pub current : QueueData
  pub backup : QueueData
  pub init_size : ℕ
  pub inited : Bool
  pub auto_compact_memory : Bool
  pub is_swapping_queue : Bool

-- CXQueue::CXQueue
unfoldable pub new_queue : Queue
new_queue = record {
  current = new_queue_data;
  backup = new_queue_data;
  init_size = 10240;
  inited = false;
  auto_compact_memory = true;
  is_swapping_queue = false;
}

-- CXQueue::Init
unfoldable pub init : Bool → ℕ → Queue → Option (Bool × Queue)
init succeeds size s =
    if s.inited then some (true, s) else elim (QueueData.init succeeds size s.current) [
      | none ↦ none
      | some (done, q) ↦ some (done, record s { current = q; inited = done; init_size = size })
    ]

-- CXQueue::CompactMemory
unfoldable pub compact_memory : Queue → Option Queue
compact_memory s =
    let using = s.current.number_of_using_nodes in
    let swapped : Queue = record s {
      current = s.backup;
      backup = s.current;
      is_swapping_queue = true;
    } in
    if not s.is_swapping_queue
      && (leb 10 s.current.number_of_blocks && s.backup.number_of_using_nodes == 0)
    then (if using == 0
        then none
        else if ltb 2 (s.current.number_of_empty_nodes / using)
        then some swapped
        else some s)
    else some s

-- The step of Push, Pop and PopFront that destroys a drained backup.
unfoldable pub retire_backup : Queue → Queue
retire_backup s =
    if s.is_swapping_queue && s.backup.number_of_using_nodes == 0
    then record s { backup = QueueData.destroy s.backup; is_swapping_queue = false }
    else s

-- The two steps that Push, Pop and PopFront begin with.
unfoldable pub prepare : Queue → Option Queue
prepare s =
    if s.auto_compact_memory
    then elim (compact_memory s) [ none ↦ none | some r ↦ some (retire_backup r) ]
    else some (retire_backup s)

-- CXQueue::Push
unfoldable pub push_prepared : Bool → ℕ → Queue → Option (Bool × Queue)
push_prepared succeeds d s = elim (QueueData.push succeeds d s.current) [
  | none ↦ none
  | some (done, q) ↦ some (done, record s { current = q })
]

unfoldable pub push_inited : Bool → ℕ → Queue → Option (Bool × Queue)
push_inited succeeds d s = elim (prepare s) [ none ↦ none | some r ↦ push_prepared succeeds d r ]

unfoldable pub push : Bool → ℕ → Queue → Option (Bool × Queue)
push succeeds d s = elim (init succeeds 10240 s) [
  | none ↦ none
  | some (false, r) ↦ some (false, r)
  | some (true, r) ↦ push_inited succeeds d r
]

-- CXQueue::PopFront, and CXQueue::Pop, which drops the data.
unfoldable pub pop_prepared : Queue → ℕ × Queue
pop_prepared s =
    if s.is_swapping_queue
    then (let (d, q) = QueueData.pop_front s.backup in (d, record s { backup = q }))
    else (let (d, q) = QueueData.pop_front s.current in (d, record s { current = q }))

unfoldable pub pop_front : Queue → Option (ℕ × Queue)
pop_front s = elim (prepare s) [ none ↦ none | some r ↦ some (pop_prepared r) ]

unfoldable pub pop : Queue → Option Queue
pop s = elim (pop_front s) [ none ↦ none | some (d, r) ↦ some r ]

-- CXQueue::Front
unfoldable pub front : Queue → ℕ
front s = if s.is_swapping_queue then QueueData.front s.backup else QueueData.front s.current

-- CXQueue::Clear
unfoldable pub clear : Queue → Option Queue
clear s = elim (QueueData.clear s.backup) [
  | none ↦ none
  | some b ↦ elim (QueueData.clear s.current) [
    | none ↦ none
    | some c ↦
        let cleared : Queue = record s { current = c; backup = b } in
        if s.is_swapping_queue
        then some (record cleared { backup = QueueData.destroy b; is_swapping_queue = false })
        else some cleared
  ]
]

-- CXQueue::Size
unfoldable pub size : Queue → ℕ
size s = add32 s.current.number_of_using_nodes s.backup.number_of_using_nodes
