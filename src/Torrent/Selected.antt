-- ===== src/Torrent/Selected.antt =====
-- The peers of src/torrent/torrent.c that pass a test, in the order of the list of keys: those that do
-- not run for `torrent_run_peers`, and the interested ones for `torrent_assign_upload_slots`.
use uvg_torrent_c.Prelude.{
  Bool-cases, inl, inr, eq_of_str_eq, refl, ℕ, ◌≡◌, refl, ap, ◌∙◌, Bool, true, false, List, [], ◌∷◌,
  Option, none, some, ◌==◌, ◌||◌, if◌then◌else◌, CString, arith, str_eq, str_eq_refl,
}
use uvg_torrent_c.HashMap.{HashMap}
use uvg_torrent_c.HashMap.Laws.{view}
use uvg_torrent_c.Torrent.{PeerObject, Store}
use uvg_torrent_c.Torrent.Table.{Stands, lists, IsDistinct}

abbrev pub among : ℕ → List ℕ → Bool
among b [] = false
among b (a ∷ jobs) = (b == a) || among b jobs

-- Every key leads to a peer in memory.
abbrev pub AllStand : Store → HashMap ℕ → List CString → Type 0
AllStand store peers ips = (ip : CString) → lists ip ips ≡ true → Stands store peers ip

-- The keys lead to the same peers, and these are the same.
abbrev pub SameAt : Store → HashMap ℕ → Store → HashMap ℕ → CString → Type 0
SameAt store peers store' peers' q =
    (view peers' q ≡ view peers q) × ((b : ℕ) → view peers q ≡ some b → store' b ≡ store b)

-- Two keys do not lead to one peer.
pub address_ne :
    (store : Store) (peers : HashMap ℕ) (ip q : CString) (s : Stands store peers ip)
    (r : Stands store peers q)
    → str_eq q ip ≡ false
    → (b : ℕ) → view peers q ≡ some b
    → (b == s.address) ≡ false
address_ne store peers ip q s r h b e = grind (arith, str_eq_refl ip)

abbrev pub IsNodup : List ℕ → Type 0
IsNodup [] = Unit
IsNodup (a ∷ order) = (among a order ≡ false) × IsNodup order

-- Another key is not the first one.
pub unlike :
    (ip : CString) (ips : List CString)
    → lists ip ips ≡ false
    → (q : CString) → lists q ips ≡ true
    → str_eq q ip ≡ false
unlike ip ips apart q h = elim (Bool-cases (str_eq q ip)) [
  | inl e ↦ ground (arith, eq_of_str_eq q ip)
  | inr e ↦ e
]

module _ (test : PeerObject → Bool) where
  abbrev pub pick_object : ℕ → Option PeerObject → List ℕ → List ℕ
  pick_object a none rest = rest
  pick_object a (some o) rest = if test o then a ∷ rest else rest

  -- The peer at an address that passes the test, in front of the others.
  abbrev pub pick_at : Store → Option ℕ → List ℕ → List ℕ
  pick_at store none rest = rest
  pick_at store (some a) rest = pick_object a (store a) rest

  -- The peers that pass the test, in the order of the keys.
  unfoldable pub pick : Store → HashMap ℕ → List CString → List ℕ
  pick store peers [] = []
  pick store peers (ip ∷ ips) = pick_at store (view peers ip) (pick store peers ips)

  pick_at-congr :
      (store store' : Store) (v v' : Option ℕ) (rest : List ℕ)
      → v' ≡ v
      → ((b : ℕ) → v ≡ some b → store' b ≡ store b)
      → pick_at store' v' rest ≡ pick_at store v rest
  pick_at-congr store store' none none rest e h = refl
  pick_at-congr store store' none (some b) rest e h = ground arith
  pick_at-congr store store' (some a) none rest e h = ground arith
  pick_at-congr store store' (some a) (some b) rest e h = grind arith

  pub pick-congr :
      (store store' : Store) (peers peers' : HashMap ℕ) (ips : List CString)
      → ((q : CString) → lists q ips ≡ true → SameAt store peers store' peers' q)
      → pick store' peers' ips ≡ pick store peers ips
  unfolding pick
  pick-congr store store' peers peers' [] h = refl
  pick-congr store store' peers peers' (ip ∷ ips) h =
      let (v, o) = h ip (ground (arith, str_eq_refl ip)) in
      pick_at-congr store store' (view peers ip) (view peers' ip) (pick store' peers' ips) v o
      ∙ ap (pick_at store (view peers ip))
          (pick-congr store store' peers peers' ips (λ q e. h q (ground arith)))

  pub pick-cons :
      (store : Store) (peers : HashMap ℕ) (ip : CString) (ips : List CString)
      (s : Stands store peers ip)
      → pick store peers (ip ∷ ips) ≡ pick_object s.address (some s.object) (pick store peers ips)
  unfolding pick
  pick-cons store peers ip ips s = rw (s.found, s.stored) refl

  pick_object-among :
      (b a : ℕ) (rest : List ℕ) (o : Option PeerObject)
      → (b == a) ≡ false
      → among a rest ≡ false
      → among a (pick_object b o rest) ≡ false
  pick_object-among b a rest none h e = e
  pick_object-among b a rest (some o) h e = elim (Bool-cases (test o)) [
    | inl t ↦ rw t (ground arith)
    | inr f ↦ rw f e
  ]

  pick_at-among :
      (store : Store) (v : Option ℕ) (a : ℕ) (rest : List ℕ)
      → ((b : ℕ) → v ≡ some b → (b == a) ≡ false)
      → among a rest ≡ false
      → among a (pick_at store v rest) ≡ false
  pick_at-among store none a rest h e = e
  pick_at-among store (some b) a rest h e = pick_object-among b a rest (store b) (h b refl) e

  pub pick-among :
      (store : Store) (peers : HashMap ℕ) (a : ℕ) (ips : List CString)
      → ((q : CString) → lists q ips ≡ true → (b : ℕ) → view peers q ≡ some b → (b == a) ≡ false)
      → among a (pick store peers ips) ≡ false
  unfolding pick
  pick-among store peers a [] h = refl
  pick-among store peers a (ip ∷ ips) h =
      pick_at-among store (view peers ip) a (pick store peers ips)
        (h ip (ground (arith, str_eq_refl ip)))
        (pick-among store peers a ips (λ q e. h q (ground arith)))

  pick_object-IsNodup :
      (a : ℕ) (o : PeerObject) (rest : List ℕ)
      → among a rest ≡ false
      → IsNodup rest
      → IsNodup (pick_object a (some o) rest)
  pick_object-IsNodup a o rest h d = elim (Bool-cases (test o)) [
    | inl t ↦ rw t (h, d)
    | inr f ↦ rw f d
  ]

  -- No peer is picked twice.
  pub pick-IsNodup :
      (store : Store) (peers : HashMap ℕ) (ips : List CString)
      → IsDistinct ips
      → AllStand store peers ips
      → IsNodup (pick store peers ips)
  unfolding pick
  pick-IsNodup store peers [] d all = tt
  pick-IsNodup store peers (ip ∷ ips) d all =
      let s = all ip (ground (arith, str_eq_refl ip)) in
      let rest : AllStand store peers ips = λ q h. all q (ground arith) in
      rw (s.found, s.stored)
        (pick_object-IsNodup s.address s.object (pick store peers ips)
          (pick-among store peers s.address ips
            (λ q h b e. address_ne store peers ip q s (rest q h) (unlike ip ips d.0 q h) b e))
          (pick-IsNodup store peers ips d.1 rest))
