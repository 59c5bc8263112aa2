-- ===== src/Queue.antt =====
-- src/thread_pool/queue.c: a linked queue with a head, a tail and a count, over an explicit heap of
-- nodes. Every operation runs under the queue's mutex, so the operations of all threads form one
-- sequence of steps. What `malloc` returns is an argument: `none` is NULL.
mod Tests
pub mod Heap
pub mod Laws
pub mod Fifo
use uvg_torrent_c.Prelude.{ℕ, ◌+◌, ◌-◌, Option, none, some, ◌==◌, if◌then◌else◌}
use Heap.{Node, Nodes, store, release}

pub record Queue : Type 0 where
  pub count : ℕ
  pub head : Option ℕ
  pub tail : Option ℕ

pub data Status : Type 0 where
  exit_success exit_failure : Status

unfoldable pub queue_new : Queue
queue_new = record { count = 0; head = none; tail = none }

module _ {ℓ} {V : Type ℓ} where
  -- `q->tail->next = node`: NULL, or a node that has been freed, is a fault.
  unfoldable pub link : Option ℕ → ℕ → Nodes V → Option (Nodes V)
  link none node h = none
  link (some t) node h = elim (h t) [
    | none ↦ none
    | some last ↦ some (store h t (record last { next = some node }))
  ]

  -- The result `none` is a fault.
  unfoldable pub queue_push : Option ℕ → V → Queue → Nodes V → Option (Status × Queue × Nodes V)
  queue_push none elem q h = some (exit_failure, q, h)
  queue_push (some node) elem q h =
      let h' = store h node (record { value = elem; next = none }) in
      elim q.head [
        | none ↦
            some
              (exit_success, record { count = q.count + 1; head = some node; tail = some node }, h')
        | some _ ↦ elim (link q.tail node h') [
          | none ↦ none
          | some h'' ↦ some (exit_success, record q { count = q.count + 1; tail = some node }, h'')
        ]
      ]

  -- The tail is left as it is, also where the last node goes. The element `none` is NULL.
  unfoldable pub queue_pop : Queue → Nodes V → Option (Option V × Queue × Nodes V)
  queue_pop q h = if q.count == 0 then some (none, q, h) else elim q.head [
    | none ↦ none
    | some p ↦ elim (h p) [
      | none ↦ none
      | some node ↦
          some (some node.value, record q { count = q.count - 1; head = node.next }, release h p)
    ]
  ]

unfoldable pub queue_get_count : Queue → ℕ
queue_get_count q = q.count
