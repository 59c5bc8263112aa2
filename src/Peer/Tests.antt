-- ===== src/Peer/Tests.antt =====
-- The laws of the reader of src/peer/peer_messages.c at concrete peers.
use uvg_torrent_c.Prelude.{ℕ, ◌≡◌, refl, inl, true, false, List, [], ◌∷◌, ◌++◌, arith}
use uvg_torrent_c.BufferedSocket.{BufferedSocket, wrote, got, last_buffer}
use uvg_torrent_c.NetUtils.{htonl, u32_bytes}
use uvg_torrent_c.Peer.{message, no_message, peer_read_message, is_valid_msg_id, forget_message}
use uvg_torrent_c.Peer.Example.{holding_bytes, peer_with}
use uvg_torrent_c.Peer.Stream.{IsReading, Kept, pending}
use uvg_torrent_c.Peer.Reading.{read_message_lem}
use uvg_torrent_c.Peer.Network.{
  Answers, IsServed, peer_handle_network_buffers, handle_network_buffers_lem,
}
use uvg_torrent_c.Peer.Progress.{read_whole_message, zero_length_wedges}

-- A message "have" and the beginning of another.
abbrev have_message : List ℕ
have_message = 0 ∷ 0 ∷ 0 ∷ 5 ∷ 4 ∷ 0 ∷ 0 ∷ 0 ∷ 9 ∷ 0 ∷ 0 ∷ []

have-IsReading : IsReading (peer_with have_message) (holding_bytes have_message)
have-IsReading = record {
  connected = refl;
  in_range = (
    omega arith,
    (
      omega arith,
      (
        omega arith,
        (
          omega arith,
          (
            omega arith,
            (
              omega arith,
              (omega arith, (omega arith, (omega arith, (omega arith, (omega arith, tt))))),
            ),
          ),
        ),
      ),
    ),
  );
  length_fits = omega arith;
  stage = inl (refl, refl);
}

read_message_lem_example :
    Kept
      (pending (peer_with have_message) (holding_bytes have_message))
      (peer_read_message true 7 (peer_with have_message))
read_message_lem_example =
    read_message_lem true 7 (peer_with have_message) (holding_bytes have_message) refl
      have-IsReading

read_whole_message_example : peer_read_message true 7 (peer_with have_message) ≡ (
  message (u32_bytes (htonl 5) ++ (4 ∷ 0 ∷ 0 ∷ 0 ∷ 9 ∷ [])),
  forget_message (peer_with (0 ∷ 0 ∷ [])),
)
unfolding u32_bytes htonl is_valid_msg_id
read_whole_message_example =
    read_whole_message 7 (peer_with have_message) (holding_bytes []) refl 4 4 (0 ∷ 0 ∷ 0 ∷ 9 ∷ [])
      (0 ∷ 0 ∷ []) refl (omega arith) refl refl refl refl

zero_length_wedges_example : peer_read_message true 7 (peer_with (0 ∷ 0 ∷ 0 ∷ 0 ∷ 0 ∷ [])) ≡ (
  no_message,
  record (peer_with []) { network_ordered_msg_length_loaded = 1; msg_id_loaded = 1 },
)
unfolding is_valid_msg_id
zero_length_wedges_example =
    (zero_length_wedges true (peer_with (0 ∷ 0 ∷ 0 ∷ 0 ∷ 0 ∷ [])) (holding_bytes []) refl 0 refl 7
      [] refl refl refl).0

-- Two bytes wait, and the system takes one and has one more to read.
abbrev busy : BufferedSocket
busy = record (holding_bytes []) {
  write_buffers = record { bytes = 1 ∷ 2 ∷ []; data_sent = 0 } ∷ [];
  write_buffer_tail = last_buffer;
}

abbrev answers : Answers
answers = record {
  has_hungup = false;
  can_network_read = true;
  writes = λ i. wrote 1;
  write_errno_passes = false;
  read = got (9 ∷ []);
  read_errno_passes = false;
}

handle_network_buffers_lem_example :
    let (status, p', wire) = peer_handle_network_buffers answers 7 (peer_with []) busy in
    IsServed busy wire (status, p')
handle_network_buffers_lem_example = handle_network_buffers_lem answers 7 (peer_with []) busy
