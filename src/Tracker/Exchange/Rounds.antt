-- ===== src/Tracker/Exchange/Rounds.antt =====
-- Rounds of the loop that waits for a reply in src/tracker/tracker.c.
use uvg_torrent_c.Prelude.{
  ℕ, zero, suc, ◌+◌, ◌*◌, ◌^◌, ◌≤◌, ◌<◌, ◌≡◌, ◌≢◌, refl, ap, ◌∙◌, Bool, true, false, List, [], ◌∷◌,
  ◌++◌, Option, none, some, Bool-cases, inl, inr, ◌==◌, length, replicate, arith,
}
use uvg_torrent_c.Prelude.Words.{sub64, slt64}
use uvg_torrent_c.NetUtils.Waiting.{
  Turn, PollAnswer, poll_error, poll_timeout, poll_other, poll_in, poll_turn, read_poll,
}
use uvg_torrent_c.Tracker.Exchange.{
  Round, Answer, waiting, message_failure, RoundEnd, ends, silent, is_partial, after_read,
  round_end, after_round, exchange,
}

-- Five seconds in which nothing comes.
abbrev pub quiet_turn : Turn
quiet_turn = record { answer = poll_timeout; is_cancelled = false }

-- A request is sent, nothing comes, and nothing is cancelled.
abbrev pub quiet_round : ℕ → Round
quiet_round size = record {
  written = some size;
  turns = replicate 5 quiet_turn;
  is_cancelled = false;
}

-- Every read may take its five seconds.
abbrev pub Lasts : List Round → Type 0
Lasts [] = Unit
Lasts (r ∷ rs) = (5 ≤ length r.turns) × Lasts rs

poll_turn_ends :
    (size : ℕ) (answer : PollAnswer) (left : ℕ) (later : Option (Option (List ℕ)))
    → (left ≢ 0 → later ≢ none)
    → poll_turn size answer left later ≢ none
unfolding poll_turn
poll_turn_ends size poll_error left later h = ground arith
poll_turn_ends size poll_timeout left later h = ground (arith, h)
poll_turn_ends size (poll_in bytes) left later h = ground arith
poll_turn_ends size poll_other left later h = ground arith

-- `read_poll` returns within as many turns as it has seconds.
read_poll_ends :
    (size : ℕ) (turns : List Turn) (n : ℕ)
    → n < 2 ^ 32
    → n < length turns
    → read_poll size turns (suc n) ≢ none
unfolding read_poll
read_poll_ends size [] n bound h = absurd (omega arith)
read_poll_ends size (turn ∷ turns) zero bound h =
    let left : sub64 1 1 ≡ 0 = omega arith in
    let ended =
      poll_turn_ends size turn.answer (sub64 1 1) (read_poll size turns (sub64 1 1))
        (λ p. absurd (p left)) in
    elim (Bool-cases turn.is_cancelled) [ inl e ↦ rw e (λ p. cc p) | inr e ↦ rw e ended ]
read_poll_ends size (turn ∷ turns) (suc n) bound h =
    let left : sub64 (suc (suc n)) 1 ≡ suc n = omega arith in
    let ended =
      poll_turn_ends size turn.answer (sub64 (suc (suc n)) 1)
        (read_poll size turns (sub64 (suc (suc n)) 1))
        (λ p. rw left (read_poll_ends size turns n (omega arith) (omega arith))) in
    elim (Bool-cases turn.is_cancelled) [ inl e ↦ rw e (λ p. cc p) | inr e ↦ rw e ended ]

quiet_round_end :
    (size buffer : ℕ) (is_corrupt : ℕ → Bool)
    → round_end size buffer is_corrupt (quiet_round size) ≡ silent
unfolding round_end after_read read_poll poll_turn
quiet_round_end size buffer is_corrupt =
    let same : (size == size) ≡ true = ground arith in rw same refl

module _ (size buffer : ℕ) (is_corrupt : ℕ → Bool) where
  abbrev pub loop : List Round → ℕ → Answer
  loop rounds tv_sec = exchange size buffer is_corrupt rounds tv_sec

  -- One round, with seconds left.
  pub loop_step :
      (r : Round) (rest : List Round) (k : ℕ)
      → k < 2 ^ 32
      → loop (r ∷ rest) (5 * suc k)
        ≡ after_round
            (round_end size buffer is_corrupt r)
            r.is_cancelled
            (5 * k)
            (loop rest (5 * k))
  unfolding exchange
  loop_step r rest k h =
      let runs : slt64 0 (5 * suc k) ≡ true = ground arith in
      let left : sub64 (5 * suc k) 5 ≡ 5 * k = omega arith in rw (runs, left) refl

  pub loop_starts : (k : ℕ) → k < 2 ^ 32 → loop [] (5 * suc k) ≡ waiting
  unfolding exchange
  loop_starts k h = let runs : slt64 0 (5 * suc k) ≡ true = ground arith in rw runs refl

  after_quiet_round : (k : ℕ) (later : Answer) → after_round silent false (5 * suc k) later ≡ later
  unfolding after_round
  after_quiet_round k later = let more : (5 * suc k == 0) ≡ false = ground arith in rw more refl

  moved : (j k : ℕ) → suc j + k ≡ suc (j + k)
  moved j k = omega arith

  pub quiet_rounds :
      (j k : ℕ) (rest : List Round)
      → j + k < 2 ^ 32
      → loop (replicate j (quiet_round size) ++ rest) (5 * suc (j + k)) ≡ loop rest (5 * suc k)
  quiet_rounds zero k rest h =
      let same : 0 + k ≡ k = omega arith in ap (λ n. loop rest (5 * suc n)) same
  quiet_rounds (suc j) k rest h =
      ap (λ n. loop (quiet_round size ∷ replicate j (quiet_round size) ++ rest) (5 * suc n))
        (moved j k)
      ∙ loop_step (quiet_round size) (replicate j (quiet_round size) ++ rest) (suc (j + k))
          (omega (arith, h))
      ∙ rw (quiet_round_end size buffer is_corrupt) (after_quiet_round (j + k) _)
      ∙ quiet_rounds j k rest (omega arith)

  pub all_quiet :
      (k : ℕ) (rest : List Round)
      → k < 2 ^ 32
      → loop (replicate (suc k) (quiet_round size) ++ rest) (5 * suc k) ≡ message_failure
  unfolding after_round
  all_quiet zero rest h =
      loop_step (quiet_round size) rest 0 h ∙ rw (quiet_round_end size buffer is_corrupt) refl
  all_quiet (suc k) rest h =
      loop_step (quiet_round size) (replicate (suc k) (quiet_round size) ++ rest) (suc k) h
      ∙ rw (quiet_round_end size buffer is_corrupt) (after_quiet_round k _)
      ∙ all_quiet k rest (omega arith)

  after_read_ends :
      (read : Option (Option (List ℕ))) → read ≢ none → after_read is_corrupt read ≢ ends waiting
  unfolding after_read
  after_read_ends none h = absurd (h refl)
  after_read_ends (some none) h = λ p. cc p
  after_read_ends (some (some [])) h = λ p. cc p
  after_read_ends (some (some (b ∷ bs))) h = elim (Bool-cases (is_corrupt (length (b ∷ bs)))) [
    | inl e ↦ rw e (λ p. cc p)
    | inr e ↦ rw e (λ p. cc p)
  ]

  round_end_ends :
      (r : Round) → 5 ≤ length r.turns → round_end size buffer is_corrupt r ≢ ends waiting
  unfolding round_end
  round_end_ends r h = elim (Bool-cases (is_partial r.written size)) [
    | inl e ↦ rw e (λ p. cc p)
    | inr e ↦ rw e (
        after_read_ends (read_poll buffer r.turns 5)
          (read_poll_ends buffer r.turns 4 (omega arith) (omega arith)))
  ]

  after_round_ends :
      (result : RoundEnd) (is_cancelled : Bool) (left : ℕ) (later : Answer)
      → result ≢ ends waiting
      → (left ≢ 0 → later ≢ waiting)
      → after_round result is_cancelled left later ≢ waiting
  unfolding after_round
  after_round_ends (ends answer) is_cancelled left later h more = λ p. h (ap ends p)
  after_round_ends silent true left later h more = λ p. cc p
  after_round_ends silent false left later h more = ground (arith, more)

  pub loop_ends :
      (rounds : List Round) (k : ℕ)
      → k < 2 ^ 32
      → suc k ≤ length rounds
      → Lasts rounds
      → loop rounds (5 * suc k) ≢ waiting
  loop_ends [] k bound h lasts = absurd (omega arith)
  loop_ends (r ∷ rest) zero bound h lasts = rw (loop_step r rest 0 bound) (
      after_round_ends (round_end size buffer is_corrupt r) r.is_cancelled (5 * 0)
        (loop rest (5 * 0)) (round_end_ends r lasts.0) (λ p. absurd (omega arith)))
  loop_ends (r ∷ rest) (suc k) bound h lasts = rw (loop_step r rest (suc k) bound) (
      after_round_ends (round_end size buffer is_corrupt r) r.is_cancelled (5 * suc k)
        (loop rest (5 * suc k)) (round_end_ends r lasts.0)
        (λ p. loop_ends rest k (omega arith) (omega arith) lasts.1))
