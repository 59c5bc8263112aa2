-- ===== src/Queue/Fifo.antt =====
-- All histories of a queue of src/thread_pool/queue.c: pushes and pops of any threads, in the order
-- in which they take the mutex.
use uvg_torrent_c.Prelude.{
  ◌≢◌, ℕ, ◌≡◌, refl, sym, ◌∙◌, ap, List, [], ◌∷◌, ◌++◌, append_assoc, Option, none, some,
}
use uvg_torrent_c.Queue.Heap.{Nodes}
use uvg_torrent_c.Queue.{
  Queue, Status, exit_success, exit_failure, queue_new, queue_push, queue_pop,
}
use uvg_torrent_c.Queue.Laws.{Cells, Represents, queue_push_lem, queue_pop_empty, queue_pop_lem}

module _ {ℓ} {V : Type ℓ} where
  -- What was pushed and what was popped, in order, and the queue after that. A push names a node
  -- that is not in use, which is what `malloc` returns if it does not return NULL.
  pub data Reach : List V → List V → Queue → Nodes V → Type ℓ where
    start : (h : Nodes V) → Reach [] [] queue_new h
    pushed :
        {ins outs : List V} {q : Queue} {h : Nodes V} (a : ℕ) (x : V) (q' : Queue) (h' : Nodes V)
        → Reach ins outs q h
        → h a ≡ none
        → queue_push (some a) x q h ≡ some (exit_success, q', h')
        → Reach (ins ++ (x ∷ [])) outs q' h'
    out_of_memory :
        {ins outs : List V} {q : Queue} {h : Nodes V} (x : V) (s : Status) (q' : Queue)
        (h' : Nodes V)
        → Reach ins outs q h
        → queue_push none x q h ≡ some (s, q', h')
        → Reach ins outs q' h'
    popped :
        {ins outs : List V} {q : Queue} {h : Nodes V} (x : V) (q' : Queue) (h' : Nodes V)
        → Reach ins outs q h
        → queue_pop q h ≡ some (some x, q', h')
        → Reach ins (outs ++ (x ∷ [])) q' h'
    found_empty :
        {ins outs : List V} {q : Queue} {h : Nodes V} (q' : Queue) (h' : Nodes V)
        → Reach ins outs q h
        → queue_pop q h ≡ some (none, q', h')
        → Reach ins outs q' h'

  abbrev pub elements : Cells V → List V
  elements [] = []
  elements ((a, x) ∷ ns) = x ∷ elements ns

  elements-append : (ns ms : Cells V) → elements (ns ++ ms) ≡ elements ns ++ elements ms
  elements-append [] ms = refl
  elements-append ((a, x) ∷ ns) ms = ap (λ l. x ∷ l) (elements-append ns ms)

  -- A queue with the elements that were pushed and not popped yet.
  abbrev pub Holds : List V → List V → Queue → Nodes V → Type ℓ
  Holds ins outs q h = (ns : Cells V) × Represents q h ns × (ins ≡ outs ++ elements ns)

  same_result {κ} :
      {A : Type κ} (y x : A) (u q' : Queue) (k h' : Nodes V)
      → ◌≡◌ {A = Option (A × Queue × Nodes V)} (some (y, u, k)) (some (x, q', h'))
      → (y ≡ x) × (u ≡ q') × (k ≡ h')
  same_result y x u q' k h' e = (cc e, cc e, cc e)

  module _ (ins outs : List V) (q q' : Queue) (h h' : Nodes V) where
    pub Holds-pushed :
        (a : ℕ) (x : V)
        → h a ≡ none
        → queue_push (some a) x q h ≡ some (exit_success, q', h')
        → Holds ins outs q h
        → Holds (ins ++ (x ∷ [])) outs q' h'
    Holds-pushed a x free p (ns, r, e) =
        let (u, k, run, r') = queue_push_lem a x q h ns free r in
        let same = same_result _ _ u q' k h' (sym run ∙ p) in
        (
          ns ++ ((a, x) ∷ []),
          rw (← same.1, ← same.2) r',
          rw (e, elements-append ns ((a, x) ∷ [])) (append_assoc outs (elements ns) (x ∷ [])),
        )

    -- A pop of a queue that holds `ns`, by the result.
    Holds-popped :
        (x : V) (ns : Cells V)
        → Represents q h ns
        → ins ≡ outs ++ elements ns
        → queue_pop q h ≡ some (some x, q', h')
        → Holds ins (outs ++ (x ∷ [])) q' h'
    Holds-popped x [] r e p = cc (queue_pop_empty q h r)
    Holds-popped x ((a, y) ∷ ns) r e p =
        let (u, run, r') = queue_pop_lem a y q h ns r in
        let same = same_result (some y) (some x) u q' _ h' (sym run ∙ p) in
        let value : y ≡ x = cc (same.0) in
        (
          ns,
          rw (← same.1, ← same.2) r',
          rw (e, ← value) (sym (append_assoc outs (y ∷ []) (elements ns))),
        )

    Holds-found_empty :
        (ns : Cells V)
        → Represents q h ns
        → ins ≡ outs ++ elements ns
        → queue_pop q h ≡ some (none, q', h')
        → Holds ins outs q' h'
    Holds-found_empty [] r e p =
        let same = same_result none none q q' h h' (sym (queue_pop_empty q h r) ∙ p) in
        ([], rw (← same.1, ← same.2) r, e)
    Holds-found_empty ((a, y) ∷ ns) r e p =
        let (u, run, r') = queue_pop_lem a y q h ns r in cc (run, p)

    Holds-out_of_memory :
        (x : V) (s : Status)
        → queue_push none x q h ≡ some (s, q', h')
        → Holds ins outs q h
        → Holds ins outs q' h'
    unfolding queue_push
    Holds-out_of_memory x s p w =
        let same = same_result exit_failure s q q' h h' p in rw (← same.1, ← same.2) w

  -- In every history the elements come out in the order in which they were pushed: those pushed are
  -- those popped followed by those that the queue still holds.
  pub Reach-Holds :
      {ins outs : List V} {q : Queue} {h : Nodes V} → Reach ins outs q h → Holds ins outs q h
  unfolding queue_new
  Reach-Holds (start h) =
      ([], record { counted = refl; starts = refl; ends = tt; linked = tt }, refl)
  Reach-Holds (pushed {ins} {outs} {q} {h} a x q' h' r free p) =
      Holds-pushed ins outs q q' h h' a x free p (Reach-Holds r)
  Reach-Holds (out_of_memory {ins} {outs} {q} {h} x s q' h' r p) =
      Holds-out_of_memory ins outs q q' h h' x s p (Reach-Holds r)
  Reach-Holds (popped {ins} {outs} {q} {h} x q' h' r p) =
      let (ns, w, e) = Reach-Holds r in Holds-popped ins outs q q' h h' x ns w e p
  Reach-Holds (found_empty {ins} {outs} {q} {h} q' h' r p) =
      let (ns, w, e) = Reach-Holds r in Holds-found_empty ins outs q q' h h' ns w e p

  no_fault : (q : Queue) (h : Nodes V) (ns : Cells V) → Represents q h ns → queue_pop q h ≢ none
  no_fault q h [] r e = cc (queue_pop_empty q h r)
  no_fault q h ((a, x) ∷ ns) r e = let (u, run, r') = queue_pop_lem a x q h ns r in cc run

  -- In no history does a pop, or a push, follow NULL or a pointer to a node that has been freed.
  pub Reach-no_fault :
      {ins outs : List V} {q : Queue} {h : Nodes V}
      → Reach ins outs q h
      → (queue_pop q h ≢ none) × ((a : ℕ) (x : V) → h a ≡ none → queue_push (some a) x q h ≢ none)
  Reach-no_fault {q} {h} reach =
      let (ns, r, e) = Reach-Holds reach in
      (
        no_fault q h ns r,
        λ a x free p. let (u, k, run, r') = queue_push_lem a x q h ns free r in cc run,
      )
