-- ===== src/Torrent/Table.antt =====
-- The peers of the torrent of src/torrent/torrent.c: the map from keys to peers, and the linked list
-- of the keys that `torrent_add_peer` keeps beside it.
use uvg_torrent_c.Prelude.{
  ℕ, ◌+◌, ◌^◌, ◌<◌, ◌≡◌, ◌≢◌, refl, sym, ◌∙◌, Bool, true, false, List, [], ◌∷◌, ◌++◌, Option, none,
  some, ◌||◌, if◌then◌else◌, CString, length, length-append, arith, str_eq, str_eq_refl,
  eq_of_str_eq, str_eq_symm, Bool-cases, inl, inr,
}
use uvg_torrent_c.Prelude.Words.{to_int}
use uvg_torrent_c.HashMap.{HashMap, hashmap_get, hashmap_set, hashmap_has_key}
use uvg_torrent_c.HashMap.Laws.{view, IsValid, has_key-view, hashmap_get_lem, hashmap_set_absent}
use uvg_torrent_c.Torrent.{
  PeerObject, Store, free, Torrent, exit_success, add_object, torrent_add_peer,
}
use uvg_torrent_c.Torrent.Peers.{put_back, find_peer}

-- The peer that the map holds under a key is in memory, and has that key.
pub record Stands (store : Store) (peers : HashMap ℕ) (ip : CString) : Type 0 where
  pub address : ℕ
  pub object : PeerObject
  pub found : view peers ip ≡ some address
  pub stored : store address ≡ some object
  pub named : object.str_ip ≡ ip

-- The two maps hold the same, though the chains may differ.
abbrev pub SameView : HashMap ℕ → HashMap ℕ → Type 0
SameView peers peers' = (q : CString) → view peers' q ≡ view peers q

module _ (store : Store) {peers : HashMap ℕ} (w : IsValid peers) (ip : CString) where
  found_lem : (s : Stands store peers ip) → (hashmap_get peers ip).0 ≡ some s.address
  found_lem s = (hashmap_get_lem w ip).0 ∙ s.found

  put_back_lem :
      (r : Option ℕ × HashMap ℕ) (a : ℕ) (o : PeerObject)
      → r.0 ≡ some a
      → store a ≡ some o
      → o.str_ip ≡ ip
      → put_back store r ≡ some (a, o, (hashmap_set r.1 ip a).1)
  unfolding put_back
  put_back_lem (none, m) a o found stored named = ground arith
  put_back_lem (some b, m) a o found stored named = grind arith

  -- Taking a peer out and putting it back leaves the map as it was.
  pub find_peer_lem :
      (s : Stands store peers ip)
      → (peers' : HashMap ℕ) × (find_peer store peers ip ≡ some (s.address, s.object, peers'))
        × SameView peers peers'
        × IsValid peers'
  unfolding find_peer put_back
  find_peer_lem s =
      let m = (hashmap_get peers ip).1 in
      let (got, taken, valid) = hashmap_get_lem w ip in
      let gone : view m ip ≡ none = taken ip ∙ rw (str_eq_refl ip) refl in
      let (ok, put_, valid') = hashmap_set_absent valid ip s.address gone in
      (
        (hashmap_set m ip s.address).1,
        put_back_lem (hashmap_get peers ip) s.address s.object (found_lem s) s.stored s.named,
        λ q. put_ q ∙ ground (arith, taken q, eq_of_str_eq q ip, s.found),
        valid',
      )

-- Whether the linked list has the key.
abbrev pub lists : CString → List CString → Bool
lists ip [] = false
lists ip (k ∷ ips) = str_eq ip k || lists ip ips

abbrev pub IsDistinct : List CString → Type 0
IsDistinct [] = Unit
IsDistinct (k ∷ ips) = (lists k ips ≡ false) × IsDistinct ips

-- The linked list has the keys of the map, each once.
pub record IsListed (t : Torrent) (store : Store) : Type 0 where
  pub valid : IsValid t.peers
  pub counted : t.peer_count ≡ length t.peer_ips
  pub distinct : IsDistinct t.peer_ips
  pub present : (ip : CString) → lists ip t.peer_ips ≡ true → Stands store t.peers ip
  pub absent : (ip : CString) → lists ip t.peer_ips ≡ false → view t.peers ip ≡ none

lists-append :
    (ip k : CString) (ips : List CString) → lists ip (ips ++ (k ∷ [])) ≡ lists ip ips || str_eq ip k
lists-append ip k [] = ground arith
lists-append ip k (x ∷ ips) = ground (arith, lists-append ip k ips)

append-IsDistinct :
    (k : CString) (ips : List CString)
    → lists k ips ≡ false
    → IsDistinct ips
    → IsDistinct (ips ++ (k ∷ []))
append-IsDistinct k [] h d = (refl, tt)
append-IsDistinct k (x ∷ ips) h d = (
  lists-append x k ips ∙ ground (arith, d.0, str_eq_symm x k),
  append-IsDistinct k ips (ground arith) d.1,
)

module _ {t : Torrent} {store : Store} (w : IsListed t store) (a : ℕ) (o : PeerObject) where
  -- What `torrent_add_peer` does with the new object.
  abbrev pub Added : Torrent → Store → Type 0
  Added t' store' =
      if hashmap_has_key t.peers o.str_ip
      then (t' ≡ t) × (store' a ≡ none)
      else (t'.peer_ips ≡ t.peer_ips ++ (o.str_ip ∷ []))
        × (view t'.peers o.str_ip ≡ some a)
        × (store' ≡ store)

  free-Stands :
      ((q : CString) → view t.peers q ≢ some a)
      → (ip : CString) → Stands store t.peers ip
      → Stands (free store a) t.peers ip
  free-Stands fresh ip s = record {
    address = s.address;
    object = s.object;
    found = s.found;
    stored = ground (arith, fresh ip, s.found, s.stored);
    named = s.named;
  }

  duplicate : ((q : CString) → view t.peers q ≢ some a) → IsListed t (free store a)
  duplicate fresh = record {
    valid = w.valid;
    counted = w.counted;
    distinct = w.distinct;
    present = λ ip h. free-Stands fresh ip (w.present ip h);
    absent = w.absent;
  }

  abbrev appended : Torrent
  appended = record t {
    peers = (hashmap_set t.peers o.str_ip a).1;
    peer_ips = t.peer_ips ++ (o.str_ip ∷ []);
    peer_count = to_int (t.peer_count + 1);
  }

  pub append-IsListed :
      store a ≡ some o
      → length t.peer_ips + 1 < 2 ^ 31
      → hashmap_has_key t.peers o.str_ip ≡ false
      → IsListed appended store
  append-IsListed stored small new =
      let ip = o.str_ip in
      let (ok, sees, valid') = hashmap_set_absent w.valid ip a ((has_key-view w.valid ip).0 new) in
      let unlisted : lists ip t.peer_ips ≡ false = elim (Bool-cases (lists ip t.peer_ips)) [
        | inl h ↦ ground (arith, (w.present ip h).found, (has_key-view w.valid ip).0 new)
        | inr h ↦ h
      ] in
      record {
        valid = valid';
        counted = ground (arith, w.counted, length-append t.peer_ips (ip ∷ []));
        distinct = append-IsDistinct ip t.peer_ips unlisted w.distinct;
        present = λ q h. elim (Bool-cases (str_eq q ip)) [
          | inl e ↦ record {
            address = a;
            object = o;
            found = sees q ∙ rw e refl;
            stored = stored;
            named = sym (eq_of_str_eq q ip e);
          }
          | inr e ↦
              let s = w.present q (ground (arith, lists-append q ip t.peer_ips)) in
              record {
                address = s.address;
                object = s.object;
                found = sees q ∙ rw e s.found;
                stored = s.stored;
                named = s.named;
              }
        ];
        absent = λ q h. sees q ∙ ground (arith, lists-append q ip t.peer_ips, w.absent q);
      }

  -- A peer in memory that no key leads to is added. When its key is new, it goes to the end of the
  -- list and the map leads to it; when the key is there, the torrent stays as it is and the new peer
  -- is freed. Both ways the call succeeds, and the list has the keys of the map, each once. There is
  -- memory for the item of the list, and the count stays below 2^31.
  pub torrent_add_peer_lem :
      store a ≡ some o
      → ((q : CString) → view t.peers q ≢ some a)
      → length t.peer_ips + 1 < 2 ^ 31
      → (t' : Torrent) × (store' : Store) × (torrent_add_peer true t store a
          ≡ some (exit_success, t', store'))
        × Added t' store'
        × IsListed t' store'
  unfolding torrent_add_peer add_object
  torrent_add_peer_lem stored fresh small = elim (Bool-cases (hashmap_has_key t.peers o.str_ip)) [
    | inl e ↦ (
      t,
      free store a,
      rw (torrent_add_peer, stored, add_object, e) refl,
      rw e (refl, ground arith),
      duplicate fresh,
    )
    | inr e ↦
        let ip = o.str_ip in
        let (ok, sees, valid') = hashmap_set_absent w.valid ip a ((has_key-view w.valid ip).0 e) in
        (
          appended,
          store,
          rw (torrent_add_peer, stored, add_object, e) refl,
          rw e (refl, sees ip ∙ rw (str_eq_refl ip) refl, refl),
          append-IsListed stored small e,
        )
  ]
