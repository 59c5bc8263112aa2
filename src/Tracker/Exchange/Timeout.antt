-- ===== src/Tracker/Exchange/Timeout.antt =====
-- How long a request of src/tracker/tracker.c waits for its reply.
use uvg_torrent_c.Prelude.{
  ℕ, suc, ◌+◌, ◌-◌, ◌*◌, ◌^◌, ◌≤◌, ◌<◌, ◌≡◌, ◌≢◌, refl, sym, ap, ◌∙◌, Bool, List, [], ◌∷◌, ◌++◌,
  length, replicate, append-nil, arith,
}
use native.Mathlib.Nat.{pow-le-pow_right, one-le-pow}
use uvg_torrent_c.Tracker.Exchange.Rounds.{
  quiet_round, Lasts, loop_starts, loop_step, quiet_rounds, all_quiet, loop_ends,
}
use uvg_torrent_c.Tracker.{Tracker, tracker_get_timeout}
use uvg_torrent_c.Tracker.Exchange.{
  Round, Answer, waiting, message_failure, ends, round_end, after_round, exchange,
}

-- The rounds of five seconds in `tracker_get_timeout`.
abbrev pub round_limit : Tracker → ℕ
round_limit tr = 12 * 2 ^ tr.message_attempts

-- 60 * 2 ^ n seconds are this many rounds, of which there is one at least.
timeout_rounds :
    (tr : Tracker)
    → tr.message_attempts ≤ 20
    → (m : ℕ) × (round_limit tr ≡ suc m) × (tracker_get_timeout tr ≡ 5 * suc m) × (m < 2 ^ 32)
unfolding tracker_get_timeout
timeout_rounds tr h =
    let low : 1 ≤ 2 ^ tr.message_attempts = one-le-pow tr.message_attempts 2 (omega arith) in
    let high : 2 ^ tr.message_attempts ≤ 2 ^ 20 = pow-le-pow_right (omega arith) h in
    (12 * 2 ^ tr.message_attempts - 1, omega (arith, low), omega (arith, low), omega (arith, high))

module _ (size buffer : ℕ) (is_corrupt : ℕ → Bool) (tr : Tracker)
    (few : tr.message_attempts ≤ 20) where
  abbrev wait : List Round → Answer
  wait rounds = exchange size buffer is_corrupt rounds (tracker_get_timeout tr)

  -- For 12 * 2 ^ n rounds of five seconds without an answer the request is sent again, where n is
  -- the number of failed messages. An end in an earlier round is the end of the loop, and after the
  -- last round the message has failed.
  pub waits_for_timeout :
      (j : ℕ) (r : Round) (rest : List Round) (a : Answer)
      → j < round_limit tr
      → round_end size buffer is_corrupt r ≡ ends a
      → (wait (replicate j (quiet_round size)) ≡ waiting)
        × (wait (replicate j (quiet_round size) ++ (r ∷ rest)) ≡ a)
        × (wait (replicate (round_limit tr) (quiet_round size) ++ rest) ≡ message_failure)
  unfolding after_round
  waits_for_timeout j r rest a early e =
      let (m, limit, seconds, bound) = timeout_rounds tr few in
      let k = m - j in
      let time : tracker_get_timeout tr ≡ 5 * suc (j + k) = omega (arith, early, limit, seconds) in
      let within : j + k < 2 ^ 32 = omega (arith, early, limit, bound) in
      let start : (rounds : List Round)
          → wait (replicate j (quiet_round size) ++ rounds)
            ≡ exchange size buffer is_corrupt rounds (5 * suc k) =
        λ rounds.
          ap (λ n. exchange size buffer is_corrupt (replicate j (quiet_round size) ++ rounds) n)
            time
          ∙ quiet_rounds size buffer is_corrupt j k rounds within in
      (
        ap wait (sym (append-nil (replicate j (quiet_round size))))
            ∙ start []
            ∙ loop_starts size buffer is_corrupt k (omega arith),
        start (r ∷ rest) ∙ loop_step size buffer is_corrupt r rest k (omega arith) ∙ rw e refl,
        rw (limit, seconds) (all_quiet size buffer is_corrupt m rest bound),
      )

  -- The loop ends, if every read may take its five seconds, in at most 12 * 2 ^ n rounds.
  pub exchange_ends :
      (rounds : List Round) → round_limit tr ≤ length rounds → Lasts rounds → wait rounds ≢ waiting
  exchange_ends rounds enough lasts =
      let (m, limit, seconds, bound) = timeout_rounds tr few in
      rw seconds
        (loop_ends size buffer is_corrupt rounds m bound (omega (arith, enough, limit)) lasts)
