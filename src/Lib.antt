-- ===== src/Lib.antt =====
-- The core of uvgTorrent-C, a BitTorrent client in C. Threads of a pool run the trackers, the peers
-- and the torrent itself; they share queues (src/thread_pool/queue.c) and the data of the torrent and
-- of its metadata (src/torrent/torrent_data.c), which cuts the data into pieces and chunks, hands
-- chunks to peers as claims with a deadline, and takes the chunks that come back. A chunk waits in
-- its piece in a hash map (src/hash_map/hash_map.c) until the piece is complete, and then the piece
-- goes to the files. Bits of claimed and completed chunks are kept in bit fields
-- (src/bitfield/bitfield.c). Peers and trackers talk over non-blocking sockets with buffers on both
-- sides (src/buffered_socket/buffered_socket.c).
--
-- Prelude: shared names, lists with an index, C strings, words of 64 bits, finite tables.
-- Bitfield: `bitfield_new`, `_set_bit` and `_get_bit` on lists of bytes.
-- HashMap: the hash on words of 32 bits, and the chains. `hashmap_get` takes the item out.
-- Queue: the linked list on an explicit heap of nodes; Queue/Fifo has all histories of a queue.
-- ThreadPool: jobs, the turns of a worker between two accesses to what the threads share, and all
--   schedules of the workers and the caller (ThreadPool/Schedule).
-- BufferedSocket: the list of buffers to write, with its tail pointer, and the buffer of bytes read;
--   the answers of `write` and `read` are arguments. Connecting is in BufferedSocket/Connecting.
-- TorrentData: the record of the data and its set-up, the layout of pieces and chunks (Geometry),
--   the test for a complete piece (Complete), the claims (Claims and its children), the files and the
--   loops over them (Disk), and `torrent_data_write_chunk` with the validation (Chunks).
-- NetUtils: the byte order on a little-endian host, and `connect_wait` and `read_poll` (Waiting).
-- Tracker: the state of a tracker and its tests; Exchange has the loop that sends a request until a
--   reply comes, Connect, Announce and Scrape have the three requests, and Run has `tracker_run`
--   with all that runs can make of a tracker (Run/Histories).
-- Peer: the state of a peer, `peer_reset`, `peer_disconnect` and `peer_read_message`. Peer/Connect has
--   the connection and the handshake, Peer/Messages the messages without a body, Peer/Pieces "have"
--   and the bit field with the interest that follows, Peer/Requests the requests for chunks and the
--   answers, Peer/Metadata takes the extension messages and, in Peer/Metadata/Request, asks for the
--   metadata; Peer/Bencode has the dictionaries that they build. Peer/Network serves the buffers of
--   the socket. Peer/Run has `peer_run`: every step in its order, and the routing of messages; its
--   children follow the steps (Peer/Run/Opening, Writing, Extensions) to the end of a run
--   (Peer/Run/Ends), and Peer/Run/Returns says which runs come to an end. Peer/Stream has the stream
--   of bytes, Peer/Reading and Peer/Progress what a call of the reader makes of it, and
--   Peer/Arriving follows a message to its reader.
-- Torrent: the trackers, and the peers as objects in a store to which the map leads (Torrent/Table).
--   Torrent/Peers has the loops over the peers: running them (Torrent/Running) and the upload slots
--   (Torrent/Ranking, Torrent/Slots), both of peers that pass a test (Torrent/Selected,
--   Torrent/Updates). Torrent/Received takes a chunk that has come from a peer, and Torrent/Progress
--   tells the peers when it finishes a piece. Torrent/Magnet has `torrent_new` with the magnet link, and
--   Torrent/Metadata makes the layout of the data of the metadata that the peers have sent.
-- TorrentData/Example and the Tests modules hold concrete runs.
--
-- A function of the source keeps its name, without the prefix `bitfield_` for bit fields. State is
-- passed explicitly; a call on which the source reads out of bounds, divides by zero or follows a bad
-- pointer has a result of its own (`none`, `fault`, `write_fault`, `crash`). Numbers are natural
-- numbers with the wrap-around of `size_t`, `int` and `uint32_t` written out; ids are `int`s that are
-- not negative. The functions that take a mutex run as one step. The clock, SHA-1, bencode, yuarel,
-- `sprintf`, `sscanf`, the file system and the network are arguments. `malloc` succeeds, but where an
-- argument says whether it does.
--
-- Loops are recursion on the list they walk or on the rounds that are left. Fuel is used in three
-- places: `push_peers` has the length of the reply, which is enough, `drain` has enough with one round
-- more than there are values, and `torrent_data_read_data` has a result of its own for running out.
-- `send_haves` has as many rounds as the progress queue has pieces, since nothing is pushed meanwhile.
--
-- Not modelled: the main program, the listening socket and `torrent_free`. A run of a peer uses the
-- data of the torrent as one thread: what other threads change during the run is not seen. The
-- floating-point rates of the sockets are not kept: where peers are sorted by them, the sort is an
-- argument. Logging, options and messages are input and output; bencode, yuarel, ipify and SHA-1 are
-- other projects' code, and so arguments where they are called.
pub mod Prelude
pub mod Bitfield
pub mod HashMap
pub mod Queue
pub mod ThreadPool
pub mod NetUtils
pub mod BufferedSocket
pub mod TorrentData
pub mod Peer
pub mod Tracker
pub mod Torrent
