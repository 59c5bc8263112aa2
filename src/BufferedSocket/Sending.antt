-- ===== src/BufferedSocket/Sending.antt =====
-- What becomes of the bytes given to `buffered_socket_write` in
-- src/buffered_socket/buffered_socket.c.
use uvg_torrent_c.Prelude.{
  ◌⊎◌, ℕ, zero, suc, ◌+◌, ◌≡◌, refl, sym, ◌∙◌, ap, true, List, [], ◌∷◌, ◌++◌, append-nil,
  append_assoc, some, arith, length, take, drop, take-append-drop, inl, inr,
}
use uvg_torrent_c.BufferedSocket.{
  WriteBuffer, BufferedSocket, Tail, null, last_buffer, SysWrite, would_block, write_failed, wrote,
  net_ok, LoopEnd, buffered_socket_write, write_round, write_loop, buffered_socket_network_write,
  can_network_write,
}

-- The bytes that wait to be sent, in order.
unfoldable pub unsent : List WriteBuffer → List ℕ
unsent [] = []
unsent (b ∷ bs) = drop b.data_sent b.bytes ++ unsent bs

unsent-append : (xs bs : List WriteBuffer) → unsent (xs ++ bs) ≡ unsent xs ++ unsent bs
unfolding unsent
unsent-append [] bs = refl
unsent-append (a ∷ xs) bs =
    rw (unsent-append xs bs) (sym (append_assoc (drop a.data_sent a.bytes) (unsent xs) (unsent bs)))

drop-nil {ℓ} : (A : Type ℓ) (n : ℕ) → drop {A = A} n [] ≡ []
drop-nil A zero = refl
drop-nil A (suc n) = refl

drop-add {ℓ} : {A : Type ℓ} (m n : ℕ) (xs : List A) → drop (m + n) xs ≡ drop n (drop m xs)
drop-add zero n xs = let e : 0 + n ≡ n = omega arith in rw e
drop-add {A} (suc m) n [] = rw (drop-nil A n, drop-nil A (suc m + n))
drop-add (suc m) n (x ∷ xs) =
    let e : suc m + n ≡ suc (m + n) = omega arith in rw e (drop-add m n xs)

module _ (b : WriteBuffer) (bs : List WriteBuffer)
    (rest : LoopEnd × List WriteBuffer × List ℕ) where
  pending : List ℕ
  pending = drop b.data_sent b.bytes

  partial-unsent :
      (n : ℕ)
      → take n pending ++ (drop (b.data_sent + n) b.bytes ++ unsent bs) ≡ pending ++ unsent bs
  unfolding pending
  partial-unsent n = rw (drop-add b.data_sent n b.bytes) (
      sym (append_assoc (take n pending) (drop n pending) (unsent bs))
      ∙ ap (λ l. l ++ unsent bs) (take-append-drop n pending))

  whole-unsent :
      rest.2 ++ unsent rest.1 ≡ unsent bs
      → (pending ++ rest.2) ++ unsent rest.1 ≡ pending ++ unsent bs
  whole-unsent ih = append_assoc pending rest.2 (unsent rest.1) ∙ ap (λ l. pending ++ l) ih

  write_round-unsent :
      (answer : SysWrite)
      → rest.2 ++ unsent rest.1 ≡ unsent bs
      → let (end, left, wire) = write_round answer b bs rest in
        wire ++ unsent left ≡ unsent (b ∷ bs)
  unfolding write_round unsent pending
  write_round-unsent would_block ih = refl
  write_round-unsent write_failed ih = refl
  write_round-unsent (wrote n) ih = ground (arith, partial-unsent n, whole-unsent ih)

-- Whatever `write` answers, the loop takes bytes off the front of those that wait.
write_loop-unsent :
    (writes : ℕ → SysWrite) (i : ℕ) (bs : List WriteBuffer)
    → let (end, left, wire) = write_loop writes i bs in wire ++ unsent left ≡ unsent bs
unfolding write_loop
write_loop-unsent writes i [] = refl
write_loop-unsent writes i (b ∷ bs) =
    write_round-unsent b bs _ (writes i) (write_loop-unsent writes (i + 1) bs)

-- `buffered_socket_network_write` hands the system the bytes that wait, from the first on, and keeps
-- the others: nothing is lost, repeated or put in another order by this call.
pub network_write-unsent :
    (writes : ℕ → SysWrite) (now : ℕ) (s : BufferedSocket)
    → let (result, s', wire) = buffered_socket_network_write writes now s in
      wire ++ unsent s'.write_buffers ≡ unsent s.write_buffers
unfolding buffered_socket_network_write
network_write-unsent writes now s = ground (arith, write_loop-unsent writes 0 s.write_buffers)

-- A write to an open socket that has a tail, or on which no buffer waits, returns the number of its
-- bytes and adds them behind those that wait.
pub write-unsent :
    (s : BufferedSocket) (bytes : List ℕ)
    → s.is_open ≡ true
    → (s.write_buffer_tail ≡ last_buffer) ⊎ (s.write_buffers ≡ [])
    → ((buffered_socket_write s bytes).0 ≡ some (length bytes))
      × (unsent (buffered_socket_write s bytes).1.write_buffers ≡ unsent s.write_buffers ++ bytes)
unfolding buffered_socket_write unsent
write-unsent s bytes o (inl t) =
    rw (o, t)
      (
        refl,
        unsent-append s.write_buffers (record { bytes = bytes; data_sent = 0 } ∷ [])
            ∙ rw append-nil,
      )
write-unsent s bytes o (inr e) = ground (arith, append-nil bytes, write_nil)
  where
    write_nil :
        (t : Tail)
        → unsent (elim t [
          | null ↦ record { bytes = bytes; data_sent = 0 } ∷ []
          | last_buffer ↦ s.write_buffers ++ (record { bytes = bytes; data_sent = 0 } ∷ [])
        ])
          ≡ bytes
    write_nil null = append-nil bytes
    write_nil last_buffer = rw (e, append-nil)

-- After a `buffered_socket_network_write` that returned 1 the next write throws away all that still
-- waits: the tail is NULL, and the head is overwritten.
pub write-loses_unsent :
    (writes : ℕ → SysWrite) (now : ℕ) (s : BufferedSocket) (bytes : List ℕ)
    → (buffered_socket_network_write writes now s).0 ≡ net_ok
    → let (result, s', wire) = buffered_socket_network_write writes now s in
      unsent (buffered_socket_write s' bytes).1.write_buffers ≡ bytes
unfolding buffered_socket_network_write buffered_socket_write unsent can_network_write
write-loses_unsent writes now s bytes h = ground (arith, append-nil bytes)
