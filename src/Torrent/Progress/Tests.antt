-- ===== src/Torrent/Progress/Tests.antt =====
-- The last chunk of a piece comes to the torrent of src/torrent/torrent.c.
use uvg_torrent_c.Prelude.{ℕ, ◌≡◌, ◌++◌, refl, subst, List, [], ◌∷◌, Option, some, arith}
use uvg_torrent_c.Bitfield.{get_in_byte, set_in_byte, set_bit}
use uvg_torrent_c.Bitfield.Laws.{bit}
use uvg_torrent_c.HashMap.Laws.{hashmap_new_lem}
use uvg_torrent_c.NetUtils.{ntohl, u32_of_bytes}
use uvg_torrent_c.Queue.{queue_new}
use uvg_torrent_c.Queue.Heap.{Nodes}
use uvg_torrent_c.Queue.Fifo.{Holds}
use uvg_torrent_c.TorrentData.{
  TorrentData, exit_success, torrent_data_is_piece_complete, all_full, torrent_data_get_piece_info,
}
use uvg_torrent_c.TorrentData.Example.{
  torrent, seven, two_bytes-IsValid, torrent-IsSized, disk_ok-Works, env, blank, files-HasOwnPaths,
}
use uvg_torrent_c.TorrentData.Disk.{Disk}
use uvg_torrent_c.TorrentData.Chunks.{wrote, torrent_data_validate_piece}
use uvg_torrent_c.TorrentData.Chunks.Outcome.{write_chunk_finishes}
use uvg_torrent_c.Peer.Messages.{get_msg_buffer_size, get_msg_length}
use uvg_torrent_c.Torrent
use uvg_torrent_c.Torrent.{PeerObject, Store, Torrent}
use uvg_torrent_c.Torrent.Example.{one_peer, one_peer-IsListed, key, object, memory}
use uvg_torrent_c.Torrent.Received.{
  received_in_piece, received_chunk, write_received, process_chunk,
}
use uvg_torrent_c.Torrent.Table.{SameView, IsListed}
use uvg_torrent_c.Torrent.Updates.{Changed}
use uvg_torrent_c.Torrent.Progress.{torrent_process_data_chunk}
use uvg_torrent_c.Torrent.Progress.Telling.{HasQueue, ready, told, HasRoom, process_data_chunk_lem}

-- A piece message with the last two bytes of the first piece.
abbrev last_chunk : List ℕ
last_chunk = 0 ∷ 0 ∷ 0 ∷ 11 ∷ 7 ∷ 0 ∷ 0 ∷ 0 ∷ 0 ∷ 0 ∷ 0 ∷ 0 ∷ 14 ∷ 5 ∷ 6 ∷ []

its_chunk : received_chunk (torrent seven) last_chunk ≡ some (7, 5 ∷ 6 ∷ [])
unfolding received_chunk received_in_piece get_msg_buffer_size get_msg_length
    torrent_data_get_piece_info ntohl u32_of_bytes
its_chunk = refl

finished :
    (td' : TorrentData) × (disk' : Disk) × (process_chunk env (torrent seven) last_chunk blank
      ≡ wrote exit_success td' disk')
unfolding bit get_in_byte torrent_data_is_piece_complete all_full set_bit set_in_byte
    torrent_data_validate_piece process_chunk
finished =
    let (pieces, empty) = hashmap_new_lem (List ℕ) 10 (omega arith) in
    let (td', disk', run, _, _, counted) =
      write_chunk_finishes env (torrent-IsSized seven)
        (two_bytes-IsValid 0xFE 0 (omega arith) (omega arith)) refl 7 (omega arith) pieces
        (omega arith) (rw (empty (48 ∷ [])) refl) (5 ∷ 6 ∷ []) blank refl refl refl refl refl
        disk_ok-Works (refl, (refl, tt)) files-HasOwnPaths refl in
    (td', disk', rw (its_chunk) (unfold write_received in run))

-- One node, which is enough for an empty queue.
abbrev malloc : Nodes ℕ → Option ℕ
malloc h = some 3

ready_one : HasQueue object × HasRoom malloc 0 object
unfolding queue_new
ready_one =
    (([], record { counted = refl; starts = refl; ends = tt; linked = tt }), (3, refl, refl))

ready_object : (b : ℕ) (x : PeerObject) → memory b ≡ some x → HasQueue x × HasRoom malloc 0 x
ready_object b x e =
    let same : object ≡ x = grind arith in
    subst (λ o. HasQueue o × HasRoom malloc 0 o) same ready_one

process_data_chunk_lem_example :
    (t' : Torrent) × (store' : Store) × (torrent_process_data_chunk env malloc one_peer memory
        last_chunk blank
      ≡ some (Torrent.exit_success, t', store', finished.1))
    × (t'.torrent_data ≡ finished.0)
    × Changed (told malloc 0) memory (ready memory one_peer.peers (key ∷ [])) store'
    × ((o : PeerObject)
        → HasQueue o
        → HasRoom malloc 0 o
        → (ins outs : List ℕ) → Holds ins outs o.peer.progress_queue o.nodes
        → Holds
            (ins ++ (0 ∷ []))
            outs
            (told malloc 0 o).peer.progress_queue
            (told malloc 0 o).nodes)
    × SameView one_peer.peers t'.peers
    × IsListed t' store'
unfolding ntohl u32_of_bytes
process_data_chunk_lem_example =
    process_data_chunk_lem malloc 0 env one_peer memory last_chunk blank finished.0 finished.1
      one_peer-IsListed ready_object refl finished.2
