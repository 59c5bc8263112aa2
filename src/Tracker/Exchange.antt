-- ===== src/Tracker/Exchange.antt =====
-- The loop in which `tracker_connect`, `tracker_announce` and `tracker_scrape` of
-- src/tracker/tracker.c each send a request and wait for a reply: it is written three times, with
-- another test of the length of the reply.
pub mod Rounds
pub mod Timeout
use uvg_torrent_c.Prelude.{
  ℕ, Bool, true, false, ◌||◌, not, List, [], ◌∷◌, Option, none, some, ltb, ◌==◌, if◌then◌else◌,
  length,
}
use uvg_torrent_c.Prelude.Words.{sub64, slt64}
use uvg_torrent_c.NetUtils.Waiting.{Turn, read_poll}
use uvg_torrent_c.Queue.{Status, exit_success, exit_failure}

-- What happens in one round: what `write` returns (`none` is -1), the turns of `read_poll`, and the
-- cancel flag behind the read.
pub record Round : Type 0 where
  pub written : Option ℕ
  pub turns : List Turn
  pub is_cancelled : Bool

-- How the loop ends: by `tracker_message_failed` and `throw`, by `throw` alone, or with the bytes
-- that were read. `waiting`: the rounds are over before it ends.
pub data Answer : Type 0 where
  waiting message_failure cancelled : Answer
  reply : List ℕ → Answer

pub data RoundEnd : Type 0 where
  ends : Answer → RoundEnd
  silent : RoundEnd

-- After the read, by what it returns; the buffer was zero before it.
unfoldable pub after_read : (ℕ → Bool) → Option (Option (List ℕ)) → RoundEnd
after_read is_corrupt none = ends waiting
after_read is_corrupt (some none) = ends message_failure
after_read is_corrupt (some (some [])) = silent
after_read is_corrupt (some (some (b ∷ bs))) =
    if is_corrupt (length (b ∷ bs)) then ends message_failure else ends (reply (b ∷ bs))

-- `write(...) != size`
abbrev pub is_partial : Option ℕ → ℕ → Bool
is_partial none size = true
is_partial (some n) size = not (n == size)

unfoldable pub round_end : ℕ → ℕ → (ℕ → Bool) → Round → RoundEnd
round_end request_size buffer_size is_corrupt round =
    if is_partial round.written request_size
    then ends message_failure
    else after_read is_corrupt (read_poll buffer_size round.turns 5)

-- Behind the read: the cancel flag, then the seconds that are left, then the rounds after this one.
unfoldable pub after_round : RoundEnd → Bool → ℕ → Answer → Answer
after_round (ends answer) is_cancelled left later = answer
after_round silent is_cancelled left later =
    if is_cancelled then cancelled else if left == 0 then message_failure else later

-- `while (timeout.tv_sec > 0)`; behind the loop the buffer is what was read last.
unfoldable pub exchange : ℕ → ℕ → (ℕ → Bool) → List Round → ℕ → Answer
exchange request_size buffer_size is_corrupt [] tv_sec =
    if slt64 0 tv_sec then waiting else reply []
exchange request_size buffer_size is_corrupt (round ∷ rounds) tv_sec =
    let left = sub64 tv_sec 5 in
    let later = exchange request_size buffer_size is_corrupt rounds left in
    if slt64 0 tv_sec
    then after_round (round_end request_size buffer_size is_corrupt round) round.is_cancelled left
        later
    else reply []
