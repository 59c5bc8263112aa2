-- ===== src/Torrent/Magnet/Parsing.antt =====
-- What the magnet link of src/torrent/torrent.c gives: the hash, the name and the trackers.
use mathlib.Core.List.{reverse}
use uvg_torrent_c.Prelude.{ℕ, ◌≡◌, List, ◌∷◌, ◌++◌, some, CString, take, length, map}
use uvg_torrent_c.Tracker.{Tracker, tracker_new}
use uvg_torrent_c.Torrent.Magnet.{Param, Parsers, Magnet, dn_key, xt_key, tr_key}
use uvg_torrent_c.Torrent.Magnet.Digits.{ReadsHex, AllBytes, to_hex}

abbrev pub tr_param : CString → Param
tr_param url = record { key = tr_key; val = some url }

abbrev pub xt_param : CString → List ℕ → Param
xt_param urn hash = record { key = xt_key; val = some (urn ++ (b':' ∷ to_hex hash)) }

abbrev pub dn_param : CString → Param
dn_param name = record { key = dn_key; val = some name }

module _ (env : Parsers) (ipptr : CString) (made : CString → Tracker)
    (makes : (url : CString)
      → tracker_new env.unescape env.host_of url ipptr ≡ some (made url)) where
  abbrev with_trackers : Magnet → List Tracker → Magnet
  with_trackers t trackers = record t { torrent = record t.torrent { trackers = trackers } }

  module _ (reads : ReadsHex env.sscanf_hex) (hash : List ℕ) (bytes : AllBytes hash)
      (sized : length hash ≡ 20) where
    -- What the link makes of a torrent that has no tracker yet.
    abbrev linked : CString → CString → List CString → Magnet → Magnet
    linked urn name urls t = record (with_trackers t (take 5 (reverse (map made urls)))) {
      name = some name;
      info_hash = some (urn ++ (b':' ∷ to_hex hash));
      info_hash_hex = hash;
    }
