-- ===== src/NetUtils/Waiting.antt =====
-- `connect_wait` and `read_poll` of src/net_utils/net_utils.c: waiting for a socket. What the system
-- answers is an argument.
use uvg_torrent_c.Prelude.{ℕ, Bool, List, [], ◌∷◌, Option, none, some, ◌==◌, if◌then◌else◌, take}
use uvg_torrent_c.Prelude.Words.{sub64}

-- What `select` says: an error, the time is over, or the socket can be written.
pub data SelectAnswer : Type 0 where
  select_error select_timeout select_ready : SelectAnswer

-- Which calls fail, in the order of the calls, and `SO_ERROR` of the socket.
pub record ConnectAnswers : Type 0 where
  pub get_flags_fails : Bool
  pub set_flags_fails : Bool
  pub connect_fails : Bool
  pub is_in_progress : Bool
  pub select_answer : SelectAnswer
  pub reset_flags_fails : Bool
  pub getsockopt_fails : Bool
  pub so_error : ℕ

-- 0, 1 and -1.
pub data ConnectResult : Type 0 where
  connect_ok connect_timed_out connect_error : ConnectResult

-- `res` after `connect` and `select`: less than 0, 0, or more.
unfoldable pub connect_res : ConnectAnswers → SelectAnswer
connect_res c =
    if c.connect_fails
    then (if c.is_in_progress then c.select_answer else select_error)
    else select_ready

unfoldable pub socket_result : ConnectAnswers → SelectAnswer → ConnectResult
socket_result c select_error = connect_error
socket_result c select_timeout = connect_timed_out
socket_result c select_ready =
    if c.getsockopt_fails
    then connect_error
    else if c.so_error == 0
    then connect_ok
    else connect_error

unfoldable pub connect_wait : ConnectAnswers → ConnectResult
connect_wait c =
    if c.get_flags_fails
    then connect_error
    else if c.set_flags_fails
    then connect_error
    else if c.reset_flags_fails
    then connect_error
    else socket_result c (connect_res c)

-- What `poll` says after at most a second: an error, nothing, data that `read` then returns (or -1),
-- or another event.
pub data PollAnswer : Type 0 where
  poll_error poll_timeout poll_other : PollAnswer
  poll_in : Option (List ℕ) → PollAnswer

-- One turn of the loop: the answer, and whether the cancel flag is set after it.
pub record Turn : Type 0 where
  pub answer : PollAnswer
  pub is_cancelled : Bool

-- `read` of a datagram into a buffer of `size` bytes drops what does not fit.
unfoldable pub read_datagram : ℕ → Option (List ℕ) → Option (List ℕ)
read_datagram size none = none
read_datagram size (some bytes) = some (take size bytes)

-- One turn, with the seconds that are left and what the turns after it do.
unfoldable pub poll_turn : ℕ → PollAnswer → ℕ → Option (Option (List ℕ)) → Option (Option (List ℕ))
poll_turn size poll_error left later = some none
poll_turn size poll_timeout left later = if left == 0 then some (some []) else later
poll_turn size (poll_in bytes) left later = some (read_datagram size bytes)
poll_turn size poll_other left later = some none

-- The loop, by the turns that happen. The outer `none`: they are over before the call returns. The
-- inner `none` is -1, and otherwise the bytes that were read, none at all for 0.
unfoldable pub read_poll : ℕ → List Turn → ℕ → Option (Option (List ℕ))
read_poll size [] tv_sec = none
read_poll size (turn ∷ turns) tv_sec =
    let later = read_poll size turns (sub64 tv_sec 1) in
    if turn.is_cancelled then some none else poll_turn size turn.answer (sub64 tv_sec 1) later
