-- ===== src/Peer/Run/State.antt =====
-- What a run of a peer works on, and how its steps follow one another: `peer_run` of
-- src/peer/peer.c.
use uvg_torrent_c.Prelude.{ℕ, Bool, List, Option, none, some, if◌then◌else◌}
use uvg_torrent_c.BufferedSocket.Connecting.{Dial}
use uvg_torrent_c.Queue.Heap.{Nodes}
use uvg_torrent_c.Queue.{Queue}
use uvg_torrent_c.TorrentData.{TorrentData}
use uvg_torrent_c.TorrentData.Disk.{Disk, FileSystem}
use uvg_torrent_c.Peer.{Peer, peer_disconnect}
use uvg_torrent_c.Peer.Messages.{Status, exit_success, exit_failure}
use uvg_torrent_c.Peer.Network.{Answers}
use uvg_torrent_c.Peer.Bencode.{Bencode}

-- What `poll` says of the socket when `peer_should_handle_network_buffers` asks.
pub record Polled : Type 0 where
  pub can_network_read : Bool
  pub has_hungup : Bool

-- The answers in a run: the clock at its steps, the polls and the network before and after the
-- messages, and what `malloc` gives.
pub record RunEnv : Type 0 where
  pub info_hash : List ℕ
  pub clock : ℕ → ℕ
  pub claim_clock : ℕ → ℕ
  pub dial : Dial
  pub polled_before : Polled
  pub answers_before : Answers
  pub writable : Bool
  pub malloc_ok : Bool
  pub node_ : Option ℕ
  pub polled_after : Polled
  pub answers_after : Answers
  pub bencode : Bencode
  pub fuel : ℕ
  pub fs : FileSystem
  pub disk : Disk

-- The peer with the nodes of its progress queue, the data and the queues of the torrent, and the
-- bytes that the system has taken from the peer.
pub record RunState : Type 0 where
  pub peer : Peer
  pub progress : Nodes ℕ
  pub metadata : TorrentData
  pub data_ : TorrentData
  pub metadata_queue : Queue
  pub metadata_nodes : Nodes (List ℕ)
  pub data_queue : Queue
  pub data_nodes : Nodes (List ℕ)
  pub wire : List ℕ

abbrev pub Step : Type 0
Step = Option (Status × RunState)

abbrev pub with_peer : RunState → Peer → RunState
with_peer st p = record st { peer = p }

-- `exit_failure` is `goto error`.
unfoldable pub then_do : Step → (RunState → Step) → Step
then_do none next = none
then_do (some (exit_failure, st)) next = some (exit_failure, st)
then_do (some (exit_success, st)) next = next st

-- A step whose result is not read.
abbrev pub unread : RunState → Status × Peer → Step
unread st (status, p) = some (exit_success, with_peer st p)

-- A step that disconnects the peer if it fails.
abbrev pub or_disconnect : ℕ → RunState → Status × Peer → Step
or_disconnect now st (exit_success, p) = some (exit_success, with_peer st p)
or_disconnect now st (exit_failure, p) = some (exit_failure, with_peer st (peer_disconnect now p))

abbrev pub optional : Bool → RunState → Step → Step
optional should st step = if should then step else some (exit_success, st)
