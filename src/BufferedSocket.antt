-- ===== src/BufferedSocket.antt =====
-- src/buffered_socket/buffered_socket.c: a queue of buffers to write and a buffer of bytes read, over
-- a non-blocking socket. What the system calls answer is an argument. The rates are floats that
-- nothing here depends on, and are left out; the times of their updates are kept.
mod Tests
pub mod Sending
pub mod Receiving
pub mod Connecting
use uvg_torrent_c.Prelude.{
  ℕ, ◌+◌, ◌-◌, Bool, true, false, List, [], ◌∷◌, ◌++◌, Option, none, some, ltb, ◌==◌, if◌then◌else◌,
  length, take, drop,
}

-- `struct BufferedSocketWriteBuffer`: `data_size` is the length of the bytes.
pub record WriteBuffer : Type 0 where
  pub bytes : List ℕ
  pub data_sent : ℕ

-- `write_buffer_tail`: NULL, or the last buffer of the list from `write_buffer_head` on. Only
-- `buffered_socket_write` sets it to a buffer, and that buffer is the last.
pub data Tail : Type 0 where
  null last_buffer : Tail

-- `socket` is -1 where `is_open` is false. The write buffers are listed from the head on.
pub record BufferedSocket : Type 0 where
  pub is_open : Bool
  pub write_buffers : List WriteBuffer
  pub write_buffer_tail : Tail
  pub read_buffer : List ℕ
  pub last_download_rate_update : ℕ
  pub last_upload_rate_update : ℕ

-- The results -1, 0 and 1 of the calls on the network.
pub data NetResult : Type 0 where
  net_error net_closed net_ok : NetResult

-- What `write` and `read` answer: -1 with EAGAIN or EWOULDBLOCK, -1 with another errno, or a count.
pub data SysWrite : Type 0 where
  would_block : SysWrite
  write_failed : SysWrite
  wrote : ℕ → SysWrite

pub data SysRead : Type 0 where
  read_failed : SysRead
  got : List ℕ → SysRead

unfoldable pub buffered_socket_new : ℕ → BufferedSocket
buffered_socket_new now = record {
  is_open = false;
  write_buffers = [];
  write_buffer_tail = null;
  read_buffer = [];
  last_download_rate_update = now;
  last_upload_rate_update = now;
}

unfoldable pub can_network_write : BufferedSocket → Bool
can_network_write s =
    if s.is_open then (elim s.write_buffers [ [] ↦ false | b ∷ bs ↦ true ]) else false

unfoldable pub can_read : BufferedSocket → Bool
can_read s = if s.is_open then (elim s.read_buffer [ [] ↦ false | b ∷ bs ↦ true ]) else false

-- A NULL tail makes the new buffer the head, whatever the head was. `none` is the result -1.
unfoldable pub buffered_socket_write : BufferedSocket → List ℕ → Option ℕ × BufferedSocket
buffered_socket_write s bytes =
    let buffer : WriteBuffer = record { bytes = bytes; data_sent = 0 } in
    if s.is_open
    then (
      some (length bytes),
      record s {
        write_buffers = elim s.write_buffer_tail [
          | null ↦ buffer ∷ []
          | last_buffer ↦ s.write_buffers ++ (buffer ∷ [])
        ];
        write_buffer_tail = last_buffer;
      },
    )
    else (none, s)

-- The end of the loop of `buffered_socket_network_write`: by its test or a `break`, by `return 0`,
-- or by an error.
pub data LoopEnd : Type 0 where
  stopped returned_zero errored : LoopEnd

-- One round: the answer to `write`, the head buffer and those behind it, and what the rounds after
-- this one do if it sends the whole buffer. The result is how the loop ended, the buffers left and
-- the bytes that `write` took.
unfoldable pub write_round :
    SysWrite
    → WriteBuffer
    → List WriteBuffer
    → LoopEnd × List WriteBuffer × List ℕ
    → LoopEnd × List WriteBuffer × List ℕ
write_round would_block b bs rest = (stopped, b ∷ bs, [])
write_round write_failed b bs rest = (errored, b ∷ bs, [])
write_round (wrote result) b bs (end, left, wire) =
    if result == 0
    then (returned_zero, b ∷ bs, [])
    else if ltb result (length b.bytes - b.data_sent)
    then (
      stopped,
      record b { data_sent = b.data_sent + result } ∷ bs,
      take result (drop b.data_sent b.bytes),
    )
    else (end, left, drop b.data_sent b.bytes ++ wire)

-- `while (write_buffer_head != NULL)`; the answer of the `i`th call of `write` is `writes i`.
unfoldable pub write_loop :
    (ℕ → SysWrite) → ℕ → List WriteBuffer → LoopEnd × List WriteBuffer × List ℕ
unfolding write_round
write_loop writes i [] = (stopped, [], [])
write_loop writes i (b ∷ bs) = write_round (writes i) b bs (write_loop writes (i + 1) bs)

-- `now` is the time that is stored at the end. The last part of the result is what `write` took.
unfoldable pub buffered_socket_network_write :
    (ℕ → SysWrite) → ℕ → BufferedSocket → NetResult × BufferedSocket × List ℕ
buffered_socket_network_write writes now s =
    if can_network_write s
    then (let (end, left, wire) = write_loop writes 0 s.write_buffers in
        elim end [
          | stopped ↦ (
            net_ok,
            record s {
              write_buffers = left;
              write_buffer_tail = null;
              last_upload_rate_update = now;
            },
            wire,
          )
          | returned_zero ↦ (net_closed, record s { write_buffers = left }, wire)
          | errored ↦ (net_error, record s { write_buffers = left }, wire)
        ])
    else (net_error, s, [])

unfoldable pub buffered_socket_network_read :
    SysRead → ℕ → BufferedSocket → NetResult × BufferedSocket
buffered_socket_network_read answer now s =
    if s.is_open
    then elim answer [
      | read_failed ↦ (net_error, s)
      | got [] ↦ (net_closed, s)
      | got (b ∷ bs) ↦ (
        net_ok,
        record s { read_buffer = s.read_buffer ++ (b ∷ bs); last_download_rate_update = now },
      )
    ]
    else (net_error, s)

-- The result of `buffered_socket_read`: -1, 0 ("not enough data"), or the bytes asked for.
pub data ReadResult : Type 0 where
  disconnected : ReadResult
  not_enough : ReadResult
  bytes_read : List ℕ → ReadResult

unfoldable pub buffered_socket_read : BufferedSocket → ℕ → ReadResult × BufferedSocket
buffered_socket_read s data_length =
    if s.is_open
    then (if ltb (length s.read_buffer) data_length then (not_enough, s) else (
      bytes_read (take data_length s.read_buffer),
      record s { read_buffer = drop data_length s.read_buffer },
    ))
    else (disconnected, s)

unfoldable pub buffered_socket_close : BufferedSocket → BufferedSocket
buffered_socket_close s = record s { is_open = false }
