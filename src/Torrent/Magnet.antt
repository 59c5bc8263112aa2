-- ===== src/Torrent/Magnet.antt =====
-- `torrent_new` and `torrent_parse_magnet_uri` of src/torrent/torrent.c. The two parsers of yuarel,
-- `sscanf` with "%2hhx" and the unescaping of libcurl are arguments, and memory is given for every
-- copy. The result `none` is a read through NULL or past the end of a string.
pub mod Digits
pub mod Parsing
mod Tests
use uvg_torrent_c.Prelude.{
  ℕ, zero, suc, ◌+◌, ◌*◌, ◌%◌, ◌^◌, Bool, List, [], ◌∷◌, ◌++◌, Option, none, some, ltb, ◌==◌,
  if◌then◌else◌, CString, str_eq, take, drop, length, get_or,
}
use uvg_torrent_c.HashMap.{hashmap_new}
use uvg_torrent_c.TorrentData.{TorrentData, torrent_data_new}
use uvg_torrent_c.Tracker.{Tracker, Yuarel, tracker_new}
use uvg_torrent_c.Torrent.{
  Torrent, Status, exit_success, exit_failure, max_trackers, torrent_add_tracker,
}

-- `struct yuarel_param`; the value is NULL where there is no "=".
pub record Param : Type 0 where
  pub key : CString
  pub val : Option CString

-- `yuarel_parse`, by the query that it finds (`none` is -1), and `yuarel_parse_query`, with the
-- number of parameters that it may find, and the list empty for -1; what `sscanf` reads at the front of a string, if anything; and what `tracker_new`
-- takes from elsewhere.
pub record Parsers : Type 0 where
  pub yuarel_parse : CString → Option (Option CString)
  pub yuarel_parse_query : Option CString → ℕ → List Param
  pub sscanf_hex : CString → Option ℕ
  pub unescape : CString → Option CString
  pub host_of : CString → Option Yuarel

-- The part of `struct Torrent` that comes from the magnet link. `info_hash_hex` is not set at first.
pub record Magnet : Type 0 where
  pub magnet_uri : CString
  pub path : CString
  pub port : ℕ
  pub name : Option CString
  pub info_hash : Option CString
  pub info_hash_hex : List ℕ
  pub torrent : Torrent

-- `struct yuarel_param params[10]`
abbrev pub max_params : ℕ
max_params = 10

-- `"http://blank.com"`, `"magnet:"`, `"dn"`, `"xt"` and `"tr"`.
abbrev pub url_prefix : CString
url_prefix =
    b'h' ∷ b't' ∷ b't' ∷ b'p' ∷ b':' ∷ b'/' ∷ b'/' ∷ b'b' ∷ b'l' ∷ b'a' ∷ b'n' ∷ b'k' ∷ b'.' ∷ b'c'
    ∷ b'o' ∷ b'm' ∷ []

abbrev pub magnet_scheme : CString
magnet_scheme = b'm' ∷ b'a' ∷ b'g' ∷ b'n' ∷ b'e' ∷ b't' ∷ b':' ∷ []

abbrev pub dn_key : CString
dn_key = b'd' ∷ b'n' ∷ []

abbrev pub xt_key : CString
xt_key = b'x' ∷ b't' ∷ []

abbrev pub tr_key : CString
tr_key = b't' ∷ b'r' ∷ []

-- `strrchr(s, c) + 1`
unfoldable pub after_last : ℕ → CString → Option CString
after_last c [] = none
after_last c (b ∷ bs) = elim (after_last c bs) [
  | some rest ↦ some rest
  | none ↦ if b == c then some bs else none
]

-- A byte that is not read stays as it is.
abbrev pub read_or : Option ℕ → ℕ → ℕ
read_or none old = old
read_or (some b) old = b

abbrev pub cons_byte : ℕ → Option (List ℕ) → Option (List ℕ)
cons_byte b none = none
cons_byte b (some bs) = some (b ∷ bs)

-- The loop over the bytes of the hash from `count` on, over the rounds left.
unfoldable pub scan_bytes :
    (sscanf_hex : CString → Option ℕ) → CString → List ℕ → ℕ → ℕ → Option (List ℕ)
scan_bytes sscanf_hex trimmed old count zero = some []
scan_bytes sscanf_hex trimmed old count (suc rounds) =
    let rest = scan_bytes sscanf_hex trimmed old (count + 1) rounds in
    if ltb (length trimmed) (2 * count)
    then none
    else cons_byte (read_or (sscanf_hex (drop (2 * count) trimmed)) (get_or old count 0)) rest

unfoldable pub set_hash : Magnet → CString → Option (List ℕ) → Option (Status × Magnet)
set_hash t val none = none
set_hash t val (some bytes) =
    some (exit_success, record t { info_hash = some val; info_hash_hex = bytes })

unfoldable pub parse_hash :
    (sscanf_hex : CString → Option ℕ) → Magnet → CString → Option (Status × Magnet)
parse_hash sscanf_hex t val = elim (after_last b':' val) [
  | none ↦ none
  | some trimmed ↦ set_hash t val (scan_bytes sscanf_hex trimmed t.info_hash_hex 0 20)
]

unfoldable pub parse_tracker : Parsers → CString → Magnet → CString → Option (Status × Magnet)
parse_tracker env ipptr t val =
    let (status, torrent) =
      torrent_add_tracker (tracker_new env.unescape env.host_of val ipptr) t.torrent in
    some (status, record t { torrent = torrent })

-- By the key; a key without a value is followed through NULL where it is used.
unfoldable pub parse_value :
    Parsers → CString → Magnet → CString → Option CString → Option (Status × Magnet)
parse_value env ipptr t key none =
    if str_eq key dn_key
    then none
    else if str_eq key xt_key
    then none
    else if str_eq key tr_key
    then (if ltb (length t.torrent.trackers) max_trackers then none else some (exit_success, t))
    else some (exit_success, t)
parse_value env ipptr t key (some val) =
    if str_eq key dn_key
    then some (exit_success, record t { name = some val })
    else if str_eq key xt_key
    then parse_hash env.sscanf_hex t val
    else if str_eq key tr_key
    then parse_tracker env ipptr t val
    else some (exit_success, t)

-- `while (p-- > 0)`: the parameters from the last to the first, until one fails.
unfoldable pub parse_params : Parsers → CString → List Param → Magnet → Option (Status × Magnet)
parse_params env ipptr [] t = some (exit_success, t)
parse_params env ipptr (param ∷ params) t = elim (parse_params env ipptr params t) [
  | none ↦ none
  | some (exit_failure, t') ↦ some (exit_failure, t')
  | some (exit_success, t') ↦ parse_value env ipptr t' param.key param.val
]

unfoldable pub torrent_parse_magnet_uri : Parsers → CString → Magnet → Option (Status × Magnet)
torrent_parse_magnet_uri env ipptr t =
    if str_eq (take 7 t.magnet_uri) magnet_scheme
    then (elim (env.yuarel_parse (url_prefix ++ drop 7 t.magnet_uri)) [
      | none ↦ some (exit_failure, t)
      | some query ↦ parse_params env ipptr (env.yuarel_parse_query query max_params) t
    ])
    else some (exit_failure, t)

-- The torrent before the link is parsed; the map of the peers is made behind that. `memory` is what
-- the bytes of the hash hold.
unfoldable pub zeroed : List ℕ → CString → CString → ℕ → Magnet
zeroed memory magnet_uri path port = record {
  magnet_uri = magnet_uri;
  path = path;
  port = port % 2 ^ 16;
  name = none;
  info_hash = none;
  info_hash_hex = memory;
  torrent = record {
    trackers = [];
    peers = hashmap_new 500;
    peer_ips = [];
    peer_count = 0;
    assign_upload_slots_deadline = 0;
    torrent_metadata = record (torrent_data_new path) { needed = 1 };
    torrent_data = record (torrent_data_new path) { needed = 0 };
  };
}

-- NULL is `some none`.
unfoldable pub after_parse : Option (Status × Magnet) → Option (Option Magnet)
after_parse none = none
after_parse (some (exit_failure, t)) = some none
after_parse (some (exit_success, t)) = some (some t)

unfoldable pub torrent_new :
    Parsers → List ℕ → CString → CString → ℕ → CString → Option (Option Magnet)
torrent_new env memory magnet_uri path port ipptr =
    after_parse (torrent_parse_magnet_uri env ipptr (zeroed memory magnet_uri path port))
