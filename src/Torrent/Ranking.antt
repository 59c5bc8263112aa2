-- ===== src/Torrent/Ranking.antt =====
-- The upload slots of a sorted array of peers: the last loop of `torrent_assign_upload_slots` of
-- src/torrent/torrent.c.
use mathlib.Core.List.{Permᴰ}
use uvg_torrent_c.Prelude.{
  ℕ, zero, ◌-◌, ◌≤◌, ◌<◌, suc, ◌+◌, ◌≡◌, ◌≢◌, refl, sym, ap, ◌∙◌, false, List, [], ◌∷◌, Option,
  none, some, ltb, if◌then◌else◌, get_elem?, arith, ℕ_discrete,
}
use uvg_torrent_c.Torrent.{PeerObject, Store}
use uvg_torrent_c.Torrent.Peers.{set_uploader, slot_of, with_slot, assign_slots}
use uvg_torrent_c.Torrent.Selected.{IsNodup, among}

perm-among : (b : ℕ) {l m : List ℕ} → Permᴰ l m → among b l ≡ among b m
perm-among b Permᴰ.nil = refl
perm-among b (Permᴰ.cons e p) = rw e (ground (arith, perm-among b p))
perm-among b (Permᴰ.swap e f) = rw (e, f) (ground arith)
perm-among b (Permᴰ.trans p q) = perm-among b p ∙ perm-among b q

pub perm-IsNodup : {l m : List ℕ} → Permᴰ l m → IsNodup l → IsNodup m
perm-IsNodup Permᴰ.nil d = tt
perm-IsNodup (Permᴰ.cons {a} {b} {l₁} {l₂} e p) d =
    (rw (← e, ← perm-among a p) d.0, perm-IsNodup p d.1)
perm-IsNodup (Permᴰ.swap {a} {b} {a'} {b'} {l} e f) d = rw (← e, ← f) (ground arith)
perm-IsNodup (Permᴰ.trans p q) d = perm-IsNodup q (perm-IsNodup p d)

abbrev uploader_of : Option PeerObject → ℕ
uploader_of none = 0
uploader_of (some o) = o.peer.uploader

-- The uploaders among some peers.
unfoldable pub uploading : Store → List ℕ → ℕ
uploading store [] = 0
uploading store (a ∷ order) = uploader_of (store a) + uploading store order

-- The slots that are left from index `i` on.
abbrev spare : Option ℕ → ℕ → ℕ
spare none i = 3 - i
spare (some k) i = (3 - i) + (if ltb k i then 0 else 1)

slot_of-spare :
    (optimistic : Option ℕ) (i : ℕ)
    → slot_of optimistic i + spare optimistic (i + 1) ≤ spare optimistic i
slot_of-spare none i = ground arith
slot_of-spare (some k) i = ground arith

spare-four : (optimistic : Option ℕ) → spare optimistic 0 ≤ 4
spare-four none = omega arith
spare-four (some k) = ground arith

get-ne : (order : List ℕ) (k a b : ℕ) → among a order ≡ false → get_elem? order k ≡ some b → a ≢ b
get-ne [] k a b h e = ground arith
get-ne (c ∷ order) zero a b h e = grind arith
get-ne (c ∷ order) (suc k) a b h e = get-ne order k a b (ground arith) e

set_uploader_self :
    (store : Store) (a slot : ℕ) → set_uploader store a slot a ≡ with_slot slot (store a)
set_uploader_self store a slot = ground arith

set_uploader_ne : (store : Store) (a b slot : ℕ) → a ≢ b → set_uploader store a slot b ≡ store b
set_uploader_ne store a b slot h = ground arith

uploader_of-with_slot : (slot : ℕ) (o : Option PeerObject) → uploader_of (with_slot slot o) ≤ slot
uploader_of-with_slot slot none = omega arith
uploader_of-with_slot slot (some o) = omega arith

module _ (optimistic : Option ℕ) where
  -- A peer that is not in the array stays as it is.
  assign_slots-other :
      (i : ℕ) (order : List ℕ) (store : Store) (b : ℕ)
      → among b order ≡ false
      → assign_slots optimistic i order store b ≡ store b
  unfolding assign_slots
  assign_slots-other i [] store b h = refl
  assign_slots-other i (a ∷ order) store b h =
      assign_slots-other (i + 1) order (set_uploader store a (slot_of optimistic i)) b
        (ground arith)
      ∙ ground arith

  -- The peer at index `k` gets the slot of that index.
  assign_slots-ranked :
      (i : ℕ) (order : List ℕ) (store : Store) (k j b : ℕ)
      → IsNodup order
      → get_elem? order k ≡ some b
      → j ≡ i + k
      → assign_slots optimistic i order store b ≡ with_slot (slot_of optimistic j) (store b)
  unfolding assign_slots
  assign_slots-ranked i [] store k j b d e h = ground arith
  assign_slots-ranked i (a ∷ order) store zero j b d e h =
      let same : a ≡ b = grind arith in
      let first : j ≡ i = omega arith in
      rw (← same) (
        assign_slots-other (i + 1) order (set_uploader store a (slot_of optimistic i)) a d.0
        ∙ set_uploader_self store a (slot_of optimistic i)
        ∙ ap (λ n. with_slot (slot_of optimistic n) (store a)) (sym first))
  assign_slots-ranked i (a ∷ order) store (suc k) j b d e h =
      assign_slots-ranked (i + 1) order (set_uploader store a (slot_of optimistic i)) k j b d.1 e
        (omega arith)
      ∙ ap (with_slot (slot_of optimistic j))
          (set_uploader_ne store a b (slot_of optimistic i) (get-ne order k a b d.0 e))

  -- A peer keeps its key.
  pub assign_slots-named :
      (i : ℕ) (order : List ℕ) (store : Store) (b : ℕ) (o : PeerObject)
      → store b ≡ some o
      → (o' : PeerObject) × (assign_slots optimistic i order store b ≡ some o')
        × (o'.str_ip ≡ o.str_ip)
  unfolding assign_slots
  assign_slots-named i [] store b o e = (o, e, refl)
  assign_slots-named i (a ∷ order) store b o e = elim (ℕ_discrete a b) [
    | yes t ↦
        let o1 = record o { peer = record (o.peer) { uploader = slot_of optimistic i } } in
        assign_slots-named (i + 1) order (set_uploader store a (slot_of optimistic i)) b o1
          (rw (t, e) (ground arith))
    | no f ↦
        assign_slots-named (i + 1) order (set_uploader store a (slot_of optimistic i)) b o
          (ground arith)
  ]

  uploading-spare :
      (i : ℕ) (order : List ℕ) (store : Store)
      → IsNodup order
      → uploading (assign_slots optimistic i order store) order ≤ spare optimistic i
  unfolding uploading assign_slots
  uploading-spare i [] store d = ground arith
  uploading-spare i (a ∷ order) store d =
      let store1 = set_uploader store a (slot_of optimistic i) in
      let rest = uploading-spare (i + 1) order store1 d.1 in
      let first : uploader_of (assign_slots optimistic (i + 1) order store1 a)
          ≤ slot_of optimistic i =
        rw
          (
            assign_slots-other (i + 1) order store1 a d.0,
            set_uploader_self store a (slot_of optimistic i),
          )
          (uploader_of-with_slot (slot_of optimistic i) (store a)) in
      omega (arith, first, rest, slot_of-spare optimistic i)

-- The peer at `b` has this slot now, and else is as it was.
abbrev pub Gets : ℕ → Store → Store → ℕ → Type 0
Gets slot store store' b =
    (o : PeerObject)
    → store b ≡ some o
    → store' b ≡ some (record o { peer = record (o.peer) { uploader = slot } })

-- What the new slots are: the first three of the sorted array and the one at the random index, if there
-- is one, have a slot, the others of the array have none, other peers stay as they are, and at most
-- four of the array have a slot.
pub record Assigned (random_index : Option ℕ) (order : List ℕ) (store store' : Store) : Type 0 where
  pub first_three : (k b : ℕ) → get_elem? order k ≡ some b → k < 3 → Gets 1 store store' b
  pub chosen :
      (k b : ℕ) → get_elem? order k ≡ some b → random_index ≡ some k → Gets 1 store store' b
  pub unchosen :
      (k b : ℕ) → get_elem? order k ≡ some b → 3 ≤ k → random_index ≢ some k → Gets 0 store store' b
  pub others : (b : ℕ) → among b order ≡ false → store' b ≡ store b
  pub bounded : uploading store' order ≤ 4

slot-first : (optimistic : Option ℕ) (k : ℕ) → k < 3 → slot_of optimistic k ≡ 1
slot-first optimistic k h = ground arith

slot-chosen : (optimistic : Option ℕ) (k : ℕ) → optimistic ≡ some k → slot_of optimistic k ≡ 1
slot-chosen optimistic k e = rw e (ground arith)

slot-unchosen :
    (optimistic : Option ℕ) (k : ℕ) → 3 ≤ k → optimistic ≢ some k → slot_of optimistic k ≡ 0
slot-unchosen none k h differs = ground arith
slot-unchosen (some i) k h differs = elim (ℕ_discrete k i) [
  | yes e ↦ absurd (differs (ap some (sym e)))
  | no n ↦ ground arith
]

gets_lem :
    (slot n : ℕ) (store store' : Store) (b : ℕ)
    → store' b ≡ with_slot n (store b)
    → n ≡ slot
    → Gets slot store store' b
gets_lem slot n store store' b e same o stored = rw (e, stored, same) refl

pub assign_slots-Assigned :
    (optimistic : Option ℕ) (order : List ℕ) (store : Store)
    → IsNodup order
    → Assigned optimistic order store (assign_slots optimistic 0 order store)
assign_slots-Assigned optimistic order store d =
    let after : Store = assign_slots optimistic 0 order store in
    let ranked = λ (k : ℕ) (b : ℕ) (e : get_elem? order k ≡ some b).
      assign_slots-ranked optimistic 0 order store k k b d e (omega arith) in
    record {
      first_three =
          λ k b e h. gets_lem 1 _ store after b (ranked k b e) (slot-first optimistic k h);
      chosen = λ k b e h. gets_lem 1 _ store after b (ranked k b e) (slot-chosen optimistic k h);
      unchosen =
          λ k b e h n. gets_lem 0 _ store after b (ranked k b e) (slot-unchosen optimistic k h n);
      others = λ b h. assign_slots-other optimistic 0 order store b h;
      bounded = omega (arith, uploading-spare optimistic 0 order store d, spare-four optimistic);
    }
