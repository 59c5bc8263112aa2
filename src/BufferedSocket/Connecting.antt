-- ===== src/BufferedSocket/Connecting.antt =====
-- `buffered_socket_connect` and `buffered_socket_set_socket_fd` of
-- src/buffered_socket/buffered_socket.c, by the answers of the system.
use uvg_torrent_c.Prelude.{Bool, true, false, if◌then◌else◌}
use uvg_torrent_c.BufferedSocket.{BufferedSocket}

-- What `connect` answers: 0, -1 with EINPROGRESS, or -1 with another `errno`.
pub data SysConnect : Type 0 where
  connects in_progress refuses : SysConnect

-- Whether `socket` and the two calls of `fcntl` succeed, and the answer of `connect`.
pub record Dial : Type 0 where
  pub socket_ok : Bool
  pub get_flags_ok : Bool
  pub set_flags_ok : Bool
  pub connect : SysConnect

pub data Status : Type 0 where
  exit_success exit_failure : Status

abbrev pub connect_status : SysConnect → Status
connect_status connects = exit_success
connect_status in_progress = exit_success
connect_status refuses = exit_failure

-- The socket stays open where a later call fails.
unfoldable pub buffered_socket_connect : Dial → BufferedSocket → Status × BufferedSocket
buffered_socket_connect dial s =
    let opened : BufferedSocket = record s { is_open = true } in
    if dial.socket_ok
    then (if dial.get_flags_ok
        then (if dial.set_flags_ok
            then (connect_status dial.connect, opened)
            else (exit_failure, opened))
        else (exit_failure, opened))
    else (exit_failure, record s { is_open = false })

-- `socket_fd` is -1 where `accepted` is false.
unfoldable pub buffered_socket_set_socket_fd :
    (accepted get_flags_ok set_flags_ok : Bool) → BufferedSocket → Status × BufferedSocket
buffered_socket_set_socket_fd accepted get_flags_ok set_flags_ok s = (
  if get_flags_ok then (if set_flags_ok then exit_success else exit_failure) else exit_failure,
  record s { is_open = accepted },
)
