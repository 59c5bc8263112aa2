-- ===== src/Peer/Metadata/Handshake.antt =====
-- The extended handshake of src/peer/peer_connect.c, as src/peer/peer_ut_metadata.c takes it.
use uvg_torrent_c.Prelude.{
  ℕ, ◌+◌, ◌^◌, ◌<◌, ◌≡◌, refl, ap, ◌∙◌, true, List, [], ◌++◌, Option, some, none, str_eq,
  take-length, length, arith,
}
use uvg_torrent_c.Prelude.Words.{sub64, to_int, extend64}
use uvg_torrent_c.NetUtils.{
  ntohl, htonl, u32_bytes, u32_of_bytes, ntohl-htonl, htonl-lt, u32_of_bytes-u32_bytes,
}
use uvg_torrent_c.Queue.Heap.{Nodes}
use uvg_torrent_c.Queue.{Queue}
use uvg_torrent_c.TorrentData.{TorrentData}
use uvg_torrent_c.TorrentData.Disk.{Disk, FileSystem}
use uvg_torrent_c.Peer.{Peer}
use uvg_torrent_c.Peer.Messages.{exit_success, get_msg_buffer_size, get_msg_length}
use uvg_torrent_c.BufferedSocket.{BufferedSocket}
use uvg_torrent_c.BufferedSocket.Sending.{unsent}
use uvg_torrent_c.Peer.Connect.{
  handshake, handshake_dict, extended_handshake, peer_handle_handshake,
}
use uvg_torrent_c.Peer.Connect.Handshake.{reader, AgreeOnEight, replies_lem}
use uvg_torrent_c.Peer.Bencode.{
  BeNode, be_dict, be_dict_add, be_dict_add_num, Bencode, LooksUp, ut_metadata_id, m_key,
  ut_metadata_key, metadata_size_key,
}
use uvg_torrent_c.Peer.Metadata.{
  extension_body, take_extensions, after_decode, peer_handle_ut_metadata_handshake,
  after_extended_handshake, peer_handle_msg_extension,
}

module _ (text : List ℕ) (bound : length text < 2 ^ 31) where
  body_size : sub64 (get_msg_buffer_size (extended_handshake text)) 6 ≡ length text
  unfolding get_msg_buffer_size get_msg_length extended_handshake
  body_size =
      let n = 2 + length text in
      let stated : ntohl (u32_of_bytes (extended_handshake text)) ≡ n =
        ap ntohl (u32_of_bytes-u32_bytes (htonl n) _ (htonl-lt n))
        ∙ ntohl-htonl n (omega (arith, bound)) in
      let whole : sub64 (4 + n) 6 ≡ length text = omega (arith, bound) in
      ap (λ k. sub64 (4 + k) 6) stated ∙ whole

  body_lem : extension_body (extended_handshake text) ≡ text
  unfolding extension_body extended_handshake u32_bytes
  body_lem = rw body_size (take-length (length text) text (omega arith))

-- What the look-ups find in the dictionary of the extended handshake.
module _ (be : Bencode) (finds : LooksUp be) (data_size : ℕ) where
  abbrev ids : BeNode
  ids = be_dict_add_num be_dict ut_metadata_key ut_metadata_id

  abbrev outer : BeNode
  outer = be_dict_add be_dict m_key ids

  found_m : be.be_dict_lookup (handshake_dict data_size) m_key ≡ some ids
  unfolding handshake_dict str_eq
  found_m =
      finds.others outer metadata_size_key m_key _ refl
      ∙ finds.added be_dict m_key ids (finds.empty m_key)

  found_id : be.be_dict_lookup_num ids ut_metadata_key ≡ ut_metadata_id
  found_id =
      finds.numbers ids ut_metadata_key ut_metadata_id
        (finds.added be_dict ut_metadata_key _ (finds.empty ut_metadata_key))

  found_size :
      be.be_dict_lookup_num (handshake_dict data_size) metadata_size_key
      ≡ extend64 (to_int data_size)
  unfolding handshake_dict str_eq
  found_size =
      let apart : be.be_dict_lookup outer metadata_size_key ≡ none =
        finds.others be_dict m_key metadata_size_key ids refl ∙ finds.empty metadata_size_key in
      finds.numbers _ metadata_size_key _ (finds.added outer metadata_size_key _ apart)

  -- A size that was stored in an `int`, extended, and taken as 32 bits again.
  narrow_extend : to_int (extend64 (to_int data_size)) ≡ to_int data_size
  narrow_extend = ground arith

  decoded_lem :
      (p : Peer)
      → after_decode be p (some (handshake_dict data_size)) ≡ (
        exit_success,
        record p { ut_metadata = ut_metadata_id; ut_metadata_size = to_int data_size },
      )
  unfolding after_decode take_extensions
  decoded_lem p =
      rw (found_m, found_id, found_size)
        (ap (λ n. (exit_success, record p { ut_metadata = ut_metadata_id; ut_metadata_size = n }))
          narrow_extend)

module _ (be : Bencode) (finds : LooksUp be) (own theirs rest : List ℕ) (metadata : TorrentData)
    (q : Peer) (s : BufferedSocket) (open_ : s.is_open ≡ true) (sized : length theirs ≡ 20) where
  -- The bencoded dictionary of the peer that sends.
  abbrev text : List ℕ
  text = be.be_encode (handshake_dict metadata.data_size) 1000

  -- A peer with an open socket on which nothing waits, which gets the handshake of this program with
  -- the same first eight bytes of the hash, answers with its extended handshake. Another peer that
  -- takes the bytes that wait then has the id 3 for metadata messages, and the size of the sender's
  -- metadata as 32 bits. The bencode library looks up what was added, and decodes what it encodes of
  -- this dictionary, in fewer than 2^31 bytes.
  pub extended_handshake_arrives :
      AgreeOnEight theirs own
      → s.write_buffers ≡ []
      → be.be_decode text ≡ some (handshake_dict metadata.data_size)
      → length text < 2 ^ 31
      → (now fuel : ℕ) (fs : FileSystem) (disk : Disk) (node_ : Option ℕ) (p : Peer)
        (known : TorrentData) (queue : Queue) (h : Nodes (List ℕ))
      → let r = peer_handle_handshake be.be_encode own metadata (
          reader be.be_encode own metadata q s open_ theirs rest sized
            (handshake theirs ++ rest)) in
        (s' : BufferedSocket) × (r.0 ≡ exit_success)
        × (r.1.socket ≡ some s')
        × (peer_handle_msg_extension be now fuel fs disk node_ p
              (unsent s'.write_buffers)
              known
              queue
              h
            ≡ some (
              exit_success,
              record p { ut_metadata = 3; ut_metadata_size = to_int metadata.data_size },
              queue,
              h,
            ))
  unfolding peer_handle_msg_extension peer_handle_ut_metadata_handshake after_extended_handshake
      extended_handshake u32_bytes
  extended_handshake_arrives agree empty decodes bound now fuel fs disk node_ p known queue h =
      let (s', replied, socket, waits) =
        replies_lem be.be_encode own metadata q s open_ theirs rest sized agree empty in
      (
        s',
        replied,
        socket,
        rw (waits, body_lem text bound, decodes)
            (rw (decoded_lem be finds metadata.data_size p) refl),
      )
