-- ===== src/Tracker/Connect/Outcome.antt =====
-- How `tracker_connect` of src/tracker/tracker.c can end.
use uvg_torrent_c.Prelude.{
  ℕ, suc, ◌≡◌, refl, ◌∙◌, ◌⊎◌, inl, inr, Bool, true, false, Bool-cases, List, [], ◌∷◌, Option, none,
  some, arith, ◌==◌, if◌then◌else◌, drop,
}
use uvg_torrent_c.Prelude.Words.{to_int}
use uvg_torrent_c.NetUtils.{ntohl, u32_of_bytes}
use uvg_torrent_c.NetUtils.Waiting.{connect_wait}
use uvg_torrent_c.Queue.{Status, exit_success, exit_failure}
use uvg_torrent_c.Tracker.{
  Tracker, tracker_idle, tracker_connecting, tracker_connected, tracker_disconnect,
  tracker_message_failed, tracker_message_succeded,
}
use uvg_torrent_c.Tracker.Exchange.{Answer, waiting, message_failure, cancelled, reply}
use uvg_torrent_c.Tracker.Connect.{
  Address, Connecting, is_ok, with_address, try_addresses, connect_answer, connect_receive,
  after_connect_loop, with_addresses, tracker_connect,
}

-- What holds of a result, where there is one.
abbrev pub Each {ℓ κ} : {A : Type ℓ} → (A → Type κ) → Option A → Type κ
Each P none = Unit
Each P (some a) = P a

-- A property of both results of two tests.
pub both_tests {ℓ κ} :
    {A : Type ℓ} (P : A → Type κ) (b c : Bool) {x y : A}
    → P x
    → P y
    → P (if b then (if c then x else y) else y)
both_tests P true true px py = px
both_tests P true false px py = py
both_tests P false c px py = py

-- The message failed: one attempt more. Otherwise `throw` leaves the status and the attempts.
abbrev pub HasFailed : Tracker → Tracker → Type 0
HasFailed tr tr' =
    ((tr'.status ≡ tracker_idle) × (tr'.message_attempts ≡ suc tr.message_attempts))
    ⊎ ((tr'.status ≡ tracker_connecting) × (tr'.message_attempts ≡ tr.message_attempts))

abbrev pub Outcome : Tracker → Status → Tracker → Type 0
Outcome tr exit_success tr' =
    (tr'.status ≡ tracker_connected) × (tr'.message_attempts ≡ 0) × (tr'.running ≡ tr.running)
Outcome tr exit_failure tr' = (tr'.socket ≡ 0) × (tr'.running ≡ tr.running) × HasFailed tr tr'

abbrev pub ConnectOutcome : Tracker → Status × Tracker → Type 0
ConnectOutcome tr (status, tr') = Outcome tr status tr'

-- All that the loop over the addresses changes is the socket.
abbrev pub IsTried : Tracker → Tracker → Type 0
IsTried tr tr' =
    (tr'.status ≡ tr.status)
    × (tr'.message_attempts ≡ tr.message_attempts)
    × (tr'.running ≡ tr.running)

with_address-IsTried :
    (fd : Option ℕ) (succeeds : Bool) (tr : Tracker) → IsTried tr (with_address fd succeeds tr).1
unfolding with_address tracker_disconnect
with_address-IsTried none succeeds tr = ground arith
with_address-IsTried (some fd) succeeds tr = ground arith

pub try_addresses-IsTried :
    (addresses : List Address) (tr : Tracker) → IsTried tr (try_addresses addresses tr).1
unfolding try_addresses
try_addresses-IsTried [] tr = (refl, refl, refl)
try_addresses-IsTried (a ∷ rest) tr =
    let first = with_address-IsTried a.socket (is_ok (connect_wait a.connecting)) tr in
    let tr' = (with_address a.socket (is_ok (connect_wait a.connecting)) tr).1 in
    let others = try_addresses-IsTried rest tr' in ground (arith, first, others)

disconnected_socket : (tr : Tracker) → (tracker_disconnect tr).socket ≡ 0
unfolding tracker_disconnect
disconnected_socket tr = ground arith

failed_outcome :
    (tr tr' : Tracker)
    → tr'.message_attempts ≡ tr.message_attempts
    → tr'.running ≡ tr.running
    → ConnectOutcome tr (exit_failure, tracker_disconnect (tracker_message_failed tr'))
unfolding tracker_message_failed tracker_disconnect
failed_outcome tr tr' a r = ground arith

connected_outcome :
    (id : ℕ) (tr tr' : Tracker)
    → tr'.running ≡ tr.running
    → ConnectOutcome tr (
      exit_success,
      record (tracker_message_succeded (record tr' { connection_id = id })) {
        status = tracker_connected;
      },
    )
unfolding tracker_message_succeded
connected_outcome id tr tr' r = (refl, refl, r)

receive_outcome :
    (tid : ℕ) (buffer : List ℕ) (tr tr' : Tracker)
    → tr'.status ≡ tracker_connecting
    → tr'.message_attempts ≡ tr.message_attempts
    → tr'.running ≡ tr.running
    → ConnectOutcome tr (connect_receive tid buffer tr')
unfolding connect_receive
receive_outcome tid buffer tr tr' s a r =
    both_tests (ConnectOutcome tr) (ntohl (u32_of_bytes buffer) == 0)
      (ntohl (u32_of_bytes (drop 4 buffer)) == tid) (connected_outcome _ tr tr' r)
      (failed_outcome tr tr' a r)

loop_outcome :
    (answer : Answer) (tid : ℕ) (tr tr' : Tracker)
    → tr'.status ≡ tracker_connecting
    → tr'.message_attempts ≡ tr.message_attempts
    → tr'.running ≡ tr.running
    → Each (ConnectOutcome tr) (after_connect_loop answer tid tr')
unfolding after_connect_loop tracker_disconnect
loop_outcome waiting tid tr tr' s a r = tt
loop_outcome message_failure tid tr tr' s a r = failed_outcome tr tr' a r
loop_outcome cancelled tid tr tr' s a r = ground arith
loop_outcome (reply buffer) tid tr tr' s a r = receive_outcome tid buffer tr tr' s a r

addresses_outcome :
    (addresses : Option (List Address)) (c : Connecting) (tr tr' : Tracker)
    → tr'.status ≡ tracker_connecting
    → tr'.message_attempts ≡ tr.message_attempts
    → tr'.running ≡ tr.running
    → Each (ConnectOutcome tr) (with_addresses addresses c tr')
unfolding with_addresses after_connect_loop
addresses_outcome none c tr tr' s a r = loop_outcome cancelled 0 tr tr' s a r
addresses_outcome (some addresses) c tr tr' s a r =
    let (ts, ta, tr_) = try_addresses-IsTried addresses tr' in
    let found = (try_addresses addresses tr').0 in
    let tried = (try_addresses addresses tr').1 in
    let tid = to_int c.random in
    elim (Bool-cases found) [
      | inl e ↦ rw e (
          loop_outcome (connect_answer c.rounds tid tried) tid tr tried (ts ∙ s) (ta ∙ a) (tr_ ∙ r))
      | inr e ↦ rw e (failed_outcome tr tried (ta ∙ a) (tr_ ∙ r))
    ]

-- `tracker_connect` succeeds with the status connected and no failed attempt; or it fails with the
-- socket closed, and then is idle with one attempt more, or is still connecting.
pub connect_outcome :
    (c : Connecting) (tr : Tracker) → Each (ConnectOutcome tr) (tracker_connect c tr)
unfolding tracker_connect
connect_outcome c tr =
    addresses_outcome c.addresses c tr (record tr { status = tracker_connecting }) refl refl refl
