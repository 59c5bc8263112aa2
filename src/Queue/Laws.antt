-- ===== src/Queue/Laws.antt =====
-- A queue of src/thread_pool/queue.c holds a list of elements: what push and pop do to it.
use uvg_torrent_c.Prelude.{
  ℕ, ◌+◌, ◌-◌, ◌≡◌, ◌≢◌, refl, sym, List, [], ◌∷◌, ◌++◌, Option, none, some, arith, length,
  length-append,
}
use uvg_torrent_c.Queue.Heap.{Node, Nodes, store, release}
use uvg_torrent_c.Queue.{Queue, exit_success, link, queue_push, queue_pop}

-- The nodes of a queue, from the head on: each with its address.
abbrev pub Cells {ℓ} : Type ℓ → Type ℓ
Cells V = List (ℕ × V)

module _ {ℓ} {V : Type ℓ} where
  abbrev pub first : Cells V → Option ℕ
  first [] = none
  first ((a, v) ∷ ns) = some a

  abbrev pub Apart : ℕ → Cells V → Type 0
  Apart a [] = Unit
  Apart a ((b, v) ∷ ns) = (a ≢ b) × Apart a ns

  abbrev pub Linked : Nodes V → Cells V → Type ℓ
  Linked h [] = Unit
  Linked h ((a, v) ∷ ns) =
      (h a ≡ some (record { value = v; next = first ns })) × Apart a ns × Linked h ns

  -- The tail of an empty queue may be anything: it is never followed.
  abbrev pub IsTail : Option ℕ → Cells V → Type 0
  IsTail t [] = Unit
  IsTail t ((a, v) ∷ []) = t ≡ some a
  IsTail t (_ ∷ n ∷ ns) = IsTail t (n ∷ ns)

  pub record Represents (q : Queue) (h : Nodes V) (ns : Cells V) : Type ℓ where
    pub counted : q.count ≡ length ns
    pub starts : q.head ≡ first ns
    pub ends : IsTail q.tail ns
    pub linked : Linked h ns

  Apart-of_free : (h : Nodes V) (a : ℕ) (ns : Cells V) → h a ≡ none → Linked h ns → Apart a ns
  Apart-of_free h a [] e l = tt
  Apart-of_free h a ((b, v) ∷ ns) e l = (λ p. cc, Apart-of_free h a ns e l.2)

  -- A write elsewhere leaves the nodes linked.
  Linked-store :
      (h : Nodes V) (a : ℕ) (n : Node V) (ns : Cells V)
      → Apart a ns
      → Linked h ns
      → Linked (store h a n) ns
  Linked-store h a n [] p l = tt
  Linked-store h a n ((b, v) ∷ ns) p l = (ground (arith, p.0), l.1, Linked-store h a n ns p.1 l.2)

  Linked-release :
      (h : Nodes V) (a : ℕ) (ns : Cells V) → Apart a ns → Linked h ns → Linked (release h a) ns
  Linked-release h a [] p l = tt
  Linked-release h a ((b, v) ∷ ns) p l = (ground (arith, p.0), l.1, Linked-release h a ns p.1 l.2)

  last_cell : ℕ × V → Cells V → ℕ × V
  last_cell n [] = n
  last_cell _ (n ∷ ns) = last_cell n ns

  IsTail-last_cell :
      (t : Option ℕ) (n : ℕ × V) (ns : Cells V) → IsTail t (n ∷ ns) → t ≡ some (last_cell n ns).0
  unfolding last_cell
  IsTail-last_cell t (a, v) [] e = e
  IsTail-last_cell t (a, v) (n ∷ ns) e = IsTail-last_cell t n ns e

  last_cell-Linked :
      (h : Nodes V) (n : ℕ × V) (ns : Cells V)
      → Linked h (n ∷ ns)
      → h (last_cell n ns).0 ≡ some (record { value = (last_cell n ns).1; next = none })
  unfolding last_cell
  last_cell-Linked h (a, v) [] l = l.0
  last_cell-Linked h (a, v) (n ∷ ns) l = last_cell-Linked h n ns l.2

  Apart-last_cell : (a : ℕ) (n : ℕ × V) (ns : Cells V) → Apart a (n ∷ ns) → a ≢ (last_cell n ns).0
  unfolding last_cell
  Apart-last_cell a (b, v) [] p = p.0
  Apart-last_cell a (b, v) (n ∷ ns) p = Apart-last_cell a n ns p.1

  Apart-append :
      (a b : ℕ) (x : V) (ns : Cells V) → a ≢ b → Apart a ns → Apart a (ns ++ ((b, x) ∷ []))
  Apart-append a b x [] d p = (d, tt)
  Apart-append a b x ((c, v) ∷ ns) d p = (p.0, Apart-append a b x ns d p.1)

  module _ (h : Nodes V) (a : ℕ) (x : V)
      (new : h a ≡ some (record { value = x; next = none })) where
    -- Setting `next` of the last node appends the new node.
    Linked-append :
        (n : ℕ × V) (ns : Cells V)
        → Apart a (n ∷ ns)
        → Linked h (n ∷ ns)
        → Linked
            (store h (last_cell n ns).0 (record { value = (last_cell n ns).1; next = some a }))
            ((n ∷ ns) ++ ((a, x) ∷ []))
    unfolding last_cell
    Linked-append (b, v) [] p l =
        (ground arith, ((λ e. p.0 (sym e)), tt), (ground (arith, p.0), tt, tt))
    Linked-append (b, v) ((c, w) ∷ ns) p l = (
      ground (arith, Apart-last_cell b (c, w) ns l.1),
      Apart-append b a x ((c, w) ∷ ns) (λ e. p.0 (sym e)) l.1,
      Linked-append (c, w) ns p.1 l.2,
    )

  IsTail-append : (a : ℕ) (x : V) (ns : Cells V) → IsTail (some a) (ns ++ ((a, x) ∷ []))
  IsTail-append a x [] = refl
  IsTail-append a x ((b, v) ∷ []) = refl
  IsTail-append a x ((b, v) ∷ n ∷ ns) = IsTail-append a x (n ∷ ns)

  IsTail-IsTail : (t : Option ℕ) (n : ℕ × V) (ns : Cells V) → IsTail t (n ∷ ns) → IsTail t ns
  IsTail-IsTail t n [] e = tt
  IsTail-IsTail t n (m ∷ ns) e = e

  -- `queue_push` with a node that is not in use succeeds, and the queue then holds the element
  -- behind those it held.
  pub queue_push_lem :
      (a : ℕ) (x : V) (q : Queue) (h : Nodes V) (ns : Cells V)
      → h a ≡ none
      → Represents q h ns
      → (q' : Queue) × (h' : Nodes V) × (queue_push (some a) x q h ≡ some (exit_success, q', h'))
        × Represents q' h' (ns ++ ((a, x) ∷ []))
  unfolding queue_push link
  queue_push_lem a x q h [] free r = (
    record { count = q.count + 1; head = some a; tail = some a },
    store h a (record { value = x; next = none }),
    rw r.starts refl,
    record {
      counted = omega (arith, r.counted);
      starts = refl;
      ends = refl;
      linked = (ground arith, tt, tt);
    },
  )
  queue_push_lem a x q h ((b, v) ∷ ns) free r =
      let fresh : Node V = record { value = x; next = none } in
      let h' : Nodes V = store h a fresh in
      let apart = Apart-of_free h a ((b, v) ∷ ns) free r.linked in
      let l : Linked h' ((b, v) ∷ ns) = Linked-store h a fresh ((b, v) ∷ ns) apart r.linked in
      let final = Linked-append h' a x (ground arith) (b, v) ns apart l in
      let cell = last_cell (b, v) ns in
      (
        record q { count = q.count + 1; tail = some a },
        store h' cell.0 (record { value = cell.1; next = some a }),
        ground (
          arith,
          r.starts,
          IsTail-last_cell q.tail (b, v) ns r.ends,
          last_cell-Linked h' (b, v) ns l,
        ),
        record {
          counted = omega (arith, r.counted, length-append ((b, v) ∷ ns) ((a, x) ∷ []));
          starts = r.starts;
          ends = IsTail-append a x ((b, v) ∷ ns);
          linked = final;
        },
      )

  -- `queue_pop` of an empty queue is NULL and changes nothing.
  pub queue_pop_empty :
      (q : Queue) (h : Nodes V) → Represents q h [] → queue_pop q h ≡ some (none, q, h)
  unfolding queue_pop
  queue_pop_empty q h r = rw r.counted

  -- `queue_pop` of a queue that holds an element returns the first, frees its node, and leaves the
  -- queue with the others.
  pub queue_pop_lem :
      (a : ℕ) (x : V) (q : Queue) (h : Nodes V) (ns : Cells V)
      → Represents q h ((a, x) ∷ ns)
      → (q' : Queue) × (queue_pop q h ≡ some (some x, q', release h a))
        × Represents q' (release h a) ns
  unfolding queue_pop
  queue_pop_lem a x q h ns r = (
    record q { count = q.count - 1; head = first ns },
    ground (arith, r.counted, r.starts, r.linked.0),
    record {
      counted = omega (arith, r.counted);
      starts = refl;
      ends = IsTail-IsTail q.tail (a, x) ns r.ends;
      linked = Linked-release h a ns r.linked.1 r.linked.2;
    },
  )
