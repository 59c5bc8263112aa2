-- ===== src/BufferedSocket/Tests.antt =====
-- Runs of the code of src/buffered_socket/buffered_socket.c, and the laws at concrete sockets.
use uvg_torrent_c.Prelude.{ℕ, ◌≡◌, refl, true, List, [], ◌∷◌, ◌++◌}
use uvg_torrent_c.BufferedSocket.{
  BufferedSocket, last_buffer, SysWrite, wrote, got, buffered_socket_write,
  buffered_socket_network_write, buffered_socket_read, can_network_write, write_loop,
  buffered_socket_network_read,
}
use uvg_torrent_c.BufferedSocket.Sending.{unsent, write-loses_unsent}
use uvg_torrent_c.BufferedSocket.Receiving.{Op, network, ask, run, run_stream}

abbrev waiting : BufferedSocket
waiting = record {
  is_open = true;
  write_buffers = record { bytes = 1 ∷ 2 ∷ 3 ∷ []; data_sent = 0 } ∷ [];
  write_buffer_tail = last_buffer;
  read_buffer = 7 ∷ 8 ∷ [];
  last_download_rate_update = 0;
  last_upload_rate_update = 0;
}

abbrev one_byte : ℕ → SysWrite
one_byte i = wrote 1

abbrev script : List Op
script = ask 1 ∷ network (got (9 ∷ [])) 5 ∷ ask 3 ∷ ask 2 ∷ []

run-script : (run script waiting).0 ≡ 7 ∷ 8 ∷ 9 ∷ []
unfolding run buffered_socket_read buffered_socket_network_read
run-script = refl

write-loses_unsent_example :
    let (result, s', wire) = buffered_socket_network_write one_byte 5 waiting in
    unsent (buffered_socket_write s' (4 ∷ [])).1.write_buffers ≡ 4 ∷ []
unfolding buffered_socket_network_write can_network_write write_loop
write-loses_unsent_example = write-loses_unsent one_byte 5 waiting (4 ∷ []) refl

run_stream_example : (run script waiting).0 ++ (run script waiting).1.read_buffer ≡ 7 ∷ 8 ∷ 9 ∷ []
run_stream_example = run_stream script waiting refl
