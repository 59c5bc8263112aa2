-- ===== src/Tracker/Connect.antt =====
-- `tracker_connect` of src/tracker/tracker.c.
pub mod Outcome
use uvg_torrent_c.Prelude.{
  ℕ, Bool, true, false, not, List, [], ◌∷◌, ◌++◌, Option, none, some, ◌==◌, if◌then◌else◌, drop,
  length,
}
use uvg_torrent_c.Prelude.Words.{to_int}
use uvg_torrent_c.NetUtils.{ntohl, htonl, u32_bytes, u32_of_bytes}
use uvg_torrent_c.NetUtils.Wide.{htonll, ntohll, u64_bytes, u64_of_bytes}
use uvg_torrent_c.NetUtils.Waiting.{
  ConnectAnswers, ConnectResult, connect_ok, connect_timed_out, connect_error, connect_wait,
}
use uvg_torrent_c.Queue.{Status, exit_success, exit_failure}
use uvg_torrent_c.Tracker.{
  Tracker, tracker_connecting, tracker_connected, tracker_disconnect, tracker_get_timeout,
  tracker_message_failed, tracker_message_succeded,
}
use uvg_torrent_c.Tracker.Exchange.{
  Round, Answer, waiting, message_failure, cancelled, reply, exchange,
}

-- One address of the host: what `socket` returns (`none` is -1), and how its connect goes.
pub record Address : Type 0 where
  pub socket : Option ℕ
  pub connecting : ConnectAnswers

-- What the system answers: to `getaddrinfo` (`none` for a failure), to `random`, and in each round.
pub record Connecting : Type 0 where
  pub addresses : Option (List Address)
  pub random : ℕ
  pub rounds : List Round

abbrev pub is_ok : ConnectResult → Bool
is_ok connect_ok = true
is_ok connect_timed_out = false
is_ok connect_error = false

unfoldable pub with_address : Option ℕ → Bool → Tracker → Bool × Tracker
with_address none succeeds tr = (false, record tr { socket = 0 })
with_address (some fd) succeeds tr =
    let tr' = record tr { socket = fd } in
    if succeeds then (true, tr') else (false, tracker_disconnect tr')

-- The loop over the addresses; `false` is the end of the list.
unfoldable pub try_addresses : List Address → Tracker → Bool × Tracker
try_addresses [] tr = (false, tr)
try_addresses (a ∷ rest) tr =
    let (found, tr') = with_address a.socket (is_ok (connect_wait a.connecting)) tr in
    let later = try_addresses rest tr' in if found then (true, tr') else later

-- `struct TRACKER_UDP_CONNECT_SEND`
unfoldable pub connect_send : ℕ → List ℕ
connect_send transaction_id =
    u64_bytes (htonll 4497486125440) ++ (u32_bytes (htonl 0) ++ u32_bytes (htonl transaction_id))

-- The loop of `tracker_connect`, for a reply of the size of `struct TRACKER_UDP_CONNECT_RECEIVE`.
unfoldable pub connect_answer : List Round → ℕ → Tracker → Answer
connect_answer rounds transaction_id tr =
    exchange (length (connect_send transaction_id)) 16 (λ n. not (n == 16)) rounds
      (tracker_get_timeout tr)

-- What follows the loop. Each failure closes the socket once more.
unfoldable pub connect_receive : ℕ → List ℕ → Tracker → Status × Tracker
connect_receive transaction_id buffer tr =
    let action = ntohl (u32_of_bytes buffer) in
    let transaction = ntohl (u32_of_bytes (drop 4 buffer)) in
    let connection_id = ntohll (u64_of_bytes (drop 8 buffer)) in
    let failed : Status × Tracker =
      (exit_failure, tracker_disconnect (tracker_message_failed tr)) in
    if action == 0
    then (if transaction == transaction_id
        then (
          exit_success,
          record (tracker_message_succeded (record tr { connection_id = connection_id })) {
            status = tracker_connected;
          },
        )
        else failed)
    else failed

unfoldable pub after_connect_loop : Answer → ℕ → Tracker → Option (Status × Tracker)
after_connect_loop waiting transaction_id tr = none
after_connect_loop message_failure transaction_id tr =
    some (exit_failure, tracker_disconnect (tracker_message_failed tr))
after_connect_loop cancelled transaction_id tr = some (exit_failure, tracker_disconnect tr)
after_connect_loop (reply buffer) transaction_id tr =
    some (connect_receive transaction_id buffer tr)

unfoldable pub with_addresses :
    Option (List Address) → Connecting → Tracker → Option (Status × Tracker)
with_addresses none c tr = some (exit_failure, tracker_disconnect tr)
with_addresses (some addresses) c tr =
    let (found, tr') = try_addresses addresses tr in
    let transaction_id = to_int c.random in
    if found
    then after_connect_loop (connect_answer c.rounds transaction_id tr') transaction_id tr'
    else some (exit_failure, tracker_disconnect (tracker_message_failed tr'))

-- The result is `none` where the rounds are over before the call returns.
unfoldable pub tracker_connect : Connecting → Tracker → Option (Status × Tracker)
tracker_connect c tr = with_addresses c.addresses c (record tr { status = tracker_connecting })
