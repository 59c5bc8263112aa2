-- ===== src/Torrent/Updates.antt =====
-- The loops of src/torrent/torrent.c that change each peer of the list that passes a test: what one
-- round leaves to the others, and what stands in the store at the end.
use uvg_torrent_c.Prelude.{
  ℕ, ◌≡◌, refl, sym, ap, ◌∙◌, Bool, true, false, List, ◌∷◌, Option, none, some, ◌==◌, if◌then◌else◌,
  CString, arith, ℕ_discrete, Bool-cases, inl, inr,
}
use uvg_torrent_c.HashMap.{HashMap}
use uvg_torrent_c.Torrent.{PeerObject, Store, put}
use uvg_torrent_c.Torrent.Selected.{
  among, AllStand, SameAt, address_ne, pick, pick_object, pick-congr, pick-cons, pick-among, unlike,
}
use uvg_torrent_c.Torrent.Table.{Stands, SameView, lists}

abbrev pub applied : (PeerObject → PeerObject) → Option PeerObject → Option PeerObject
applied u none = none
applied u (some o) = some (u o)

-- The store in which the chosen objects are changed by `u`, and no other.
abbrev pub Changed : (PeerObject → PeerObject) → Store → List ℕ → Store → Type 0
Changed u store chosen store' =
    (b : ℕ) → store' b ≡ (if among b chosen then applied u (store b) else store b)

module _ (test : PeerObject → Bool) (u : PeerObject → PeerObject) where
  -- The store after one peer.
  unfoldable pub step_store : Store → ℕ → PeerObject → Store
  step_store store a o = if test o then put store a (u o) else store

  step_store_ne :
      (store : Store) (a b : ℕ) (o : PeerObject)
      → (b == a) ≡ false
      → step_store store a o b ≡ store b
  unfolding step_store
  step_store_ne store a b o h = elim (Bool-cases (test o)) [
    | inl e ↦ rw e (ground arith)
    | inr e ↦ rw e refl
  ]

  step_store-applied :
      (store : Store) (a b : ℕ) (o : PeerObject) (rest : List ℕ)
      → store a ≡ some o
      → among a rest ≡ false
      → (if among b rest then applied u (step_store store a o b) else step_store store a o b)
        ≡ (if among b (pick_object test a (some o) rest) then applied u (store b) else store b)
  unfolding step_store
  step_store-applied store a b o rest h apart = elim (Bool-cases (test o)) [
    | inl e ↦
        rw e
          (elim (ℕ_discrete b a) [ yes i ↦ rw (i, h, apart) (ground arith) | no n ↦ ground arith ])
    | inr e ↦ rw e refl
  ]

  -- After one peer the other keys lead to the same peers.
  module _ (store : Store) (peers peers' : HashMap ℕ) (ip : CString) (ips : List CString)
      (s : Stands store peers ip) (apart : lists ip ips ≡ false) (same : SameView peers peers')
      (all : AllStand store peers ips) where
    pub kept :
        (q : CString)
        → lists q ips ≡ true
        → SameAt store peers (step_store store s.address s.object) peers' q
    kept q h = (
      same q,
      λ b e.
          step_store_ne store s.address b s.object
            (address_ne store peers ip q s (all q h) (unlike ip ips apart q h) b e),
    )

    pub moved : AllStand (step_store store s.address s.object) peers' ips
    moved q h =
        let r = all q h in
        record {
          address = r.address;
          object = r.object;
          found = (kept q h).0 ∙ r.found;
          stored = (kept q h).1 r.address r.found ∙ r.stored;
          named = r.named;
        }

    -- The peers that are picked behind the first one are the same.
    pub picked_lem :
        pick test (step_store store s.address s.object) peers' ips ≡ pick test store peers ips
    picked_lem = pick-congr test store (step_store store s.address s.object) peers peers' ips kept

    -- What the loop changes behind the first peer, and the first peer.
    pub Changed-cons :
        (store' : Store)
        → Changed u
            (step_store store s.address s.object)
            (pick test (step_store store s.address s.object) peers' ips)
            store'
        → Changed u store (pick test store peers (ip ∷ ips)) store'
    Changed-cons store' c b =
        let store1 = step_store store s.address s.object in
        let rest = pick test store peers ips in
        let alone =
          pick-among test store peers s.address ips
            (λ q h i e. address_ne store peers ip q s (all q h) (unlike ip ips apart q h) i e) in
        c b
        ∙ ap (λ l. if among b l then applied u (store1 b) else store1 b) picked_lem
        ∙ step_store-applied store s.address b s.object rest s.stored alone
        ∙ ap (λ l. if among b l then applied u (store b) else store b)
            (sym (pick-cons test store peers ip ips s))

  -- A peer after the loop, under the same key, if its change keeps the key.
  pub Changed-Stands :
      (store store' : Store) (peers peers' : HashMap ℕ) (chosen : List ℕ) (ip : CString)
      → ((o : PeerObject) → (u o).str_ip ≡ o.str_ip)
      → SameView peers peers'
      → Changed u store chosen store'
      → Stands store peers ip
      → Stands store' peers' ip
  Changed-Stands store store' peers peers' chosen ip keeps same changed s =
      elim (Bool-cases (among s.address chosen)) [
        | inl e ↦ record {
          address = s.address;
          object = u s.object;
          found = same ip ∙ s.found;
          stored = changed s.address ∙ rw (e, s.stored) refl;
          named = keeps s.object ∙ s.named;
        }
        | inr e ↦ record {
          address = s.address;
          object = s.object;
          found = same ip ∙ s.found;
          stored = changed s.address ∙ rw (e, s.stored) refl;
          named = s.named;
        }
      ]
