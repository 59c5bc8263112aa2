-- ===== src/Torrent/Magnet/Tests.antt =====
-- A magnet link of src/torrent/torrent.c with nine trackers.
use uvg_torrent_c.Prelude.{
  ℕ, ◌+◌, ◌-◌, ◌*◌, List, [], ◌∷◌, Option, none, some, ltb, CString, if◌then◌else◌, replicate, take,
  map,
}
use uvg_torrent_c.Tracker.{Tracker, tracker_idle}
use uvg_torrent_c.Torrent.Magnet.{Parsers, Magnet}
use uvg_torrent_c.Torrent.Magnet.Parsing.{tr_param, xt_param, dn_param}

abbrev hex_value : ℕ → ℕ
hex_value c = if ltb c 58 then c - 48 else c - 87

abbrev sscanf_hex : CString → Option ℕ
sscanf_hex [] = none
sscanf_hex (a ∷ []) = some (hex_value a)
sscanf_hex (a ∷ b ∷ rest) = some (16 * hex_value a + hex_value b)

abbrev hash : List ℕ
hash = replicate 20 0xA7

abbrev urls : List CString
urls = map (λ n. n ∷ []) (49 ∷ 50 ∷ 51 ∷ 52 ∷ 53 ∷ 54 ∷ 55 ∷ 56 ∷ 57 ∷ [])

abbrev parsers : Parsers
parsers = record {
  yuarel_parse = λ url. some (some url);
  yuarel_parse_query =
      λ query n. take n (xt_param (117 ∷ 58 ∷ []) hash ∷ dn_param (110 ∷ []) ∷ map tr_param urls);
  sscanf_hex = sscanf_hex;
  unescape = λ s. some s;
  host_of = λ s. some (record { host = s; port = 80 });
}

abbrev made : CString → Tracker
made url = record {
  public_ip = [];
  url = url;
  host = url;
  port = 80;
  connection_id = 0;
  announce_deadline = 0;
  scrape_deadline = 0;
  seeders = 0;
  leechers = 0;
  socket = 0;
  status = tracker_idle;
  message_attempts = 0;
  running = 0;
}
