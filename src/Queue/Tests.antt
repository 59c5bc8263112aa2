-- ===== src/Queue/Tests.antt =====
-- Runs of the code of src/thread_pool/queue.c, and the laws at concrete queues.
use uvg_torrent_c.Prelude.{ℕ, refl, [], ◌∷◌, none, some, arith}
use uvg_torrent_c.Queue.Heap.{Nodes, store}
use uvg_torrent_c.Queue.{Queue, queue_new, queue_push}
use uvg_torrent_c.Queue.Laws.{Represents}
use uvg_torrent_c.Queue.Fifo.{Reach, start, pushed, Holds, Reach-Holds}

abbrev empty_heap : Nodes ℕ
empty_heap a = none

abbrev one_node : Nodes ℕ
one_node = store empty_heap 5 (record { value = 8; next = none })

abbrev one_queue : Queue
one_queue = record { count = 1; head = some 5; tail = some 5 }

one-Represents : Represents one_queue one_node ((5, 8) ∷ [])
one-Represents = record {
  counted = refl;
  starts = refl;
  ends = refl;
  linked = (ground arith, tt, tt);
}

one-Reach : Reach (8 ∷ []) [] one_queue one_node
unfolding queue_push queue_new
one-Reach = pushed 5 8 one_queue one_node (start empty_heap) refl refl

Reach-Holds_example : Holds (8 ∷ []) [] one_queue one_node
Reach-Holds_example = Reach-Holds one-Reach
