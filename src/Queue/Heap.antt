-- ===== src/Queue/Heap.antt =====
-- The memory of the nodes of src/thread_pool/queue.c.
use uvg_torrent_c.Prelude.{ℕ, Option, none, some, ◌==◌, if◌then◌else◌}

-- `struct QueueNode`; a pointer is an address, and NULL is `none`.
pub record Node {ℓ} (V : Type ℓ) : Type ℓ where
  pub value : V
  pub next : Option ℕ

-- What stands at an address; `none` where nothing is allocated.
abbrev pub Nodes {ℓ} : Type ℓ → Type ℓ
Nodes V = ℕ → Option (Node V)

module _ {ℓ} {V : Type ℓ} where
  abbrev pub store : Nodes V → ℕ → Node V → Nodes V
  store h p node a = if p == a then some node else h a

  -- `free`
  abbrev pub release : Nodes V → ℕ → Nodes V
  release h p a = if p == a then none else h a
