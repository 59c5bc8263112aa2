-- ===== src/HashMap/Laws.antt =====
-- The map that a hash map of src/hash_map/hash_map.c stands for, and what each operation does to it.
use uvg_torrent_c.Prelude.{
  ℕ, zero, suc, ◌<◌, ◌≡◌, refl, ◌∙◌, false, [], Option, none, some, arith, CString, str_eq,
  eq_of_str_eq, if◌then◌else◌, length, get_or, set, replicate, length-set, length-replicate, ◌==◌,
  ◌↔◌, get_or-set_self, get_or-set_ne, ℕ_discrete,
}
use uvg_torrent_c.HashMap.{
  HashMap, exit_success, frees_garbage, bucket_index, bucket_of, hashmap_new, hashmap_get,
  hashmap_has_key, hashmap_set,
}
use uvg_torrent_c.HashMap.Chain.{
  Items, lookup, IsDistinct, lookup-eq-none, has_of_lookup, take_key-found, lookup-take_key,
  lookup-append, take_key-IsDistinct, append-IsDistinct, AllKeys, take_key-AllKeys, append-AllKeys,
}

pub bucket_index-lt : {n : ℕ} (key : CString) → 0 < n → bucket_index n key < n
unfolding bucket_index
bucket_index-lt key h = omega arith

module _ {ℓ} {V : Type ℓ} where
  -- What the map holds under a key.
  unfoldable pub view : HashMap V → CString → Option V
  view hm key = lookup key (bucket_of hm key)

  -- No bucket repeats a key. Keys in a bucket that is not theirs are never read.
  pub record IsValid (hm : HashMap V) : Type ℓ where
    pub some_buckets : 0 < hm.max_buckets
    pub allocated : length hm.buckets ≡ hm.max_buckets
    pub distinct : (i : ℕ) → IsDistinct (get_or hm.buckets i [])
    pub placed : (i : ℕ) → AllKeys (λ k. bucket_index hm.max_buckets k ≡ i) (get_or hm.buckets i [])

  -- All four writes replace the chain of `key` by another.
  abbrev put_chain : HashMap V → CString → Items V → HashMap V
  put_chain hm key c = record hm { buckets = set hm.buckets (bucket_index hm.max_buckets key) c }

  module _ {hm : HashMap V} (w : IsValid hm) (key : CString) (c : Items V) where
    inside : bucket_index hm.max_buckets key < length hm.buckets
    inside = omega (arith, bucket_index-lt key w.some_buckets, w.allocated)

    view-put_chain :
        (q : CString)
        → view (put_chain hm key c) q ≡ (
            if bucket_index hm.max_buckets q == bucket_index hm.max_buckets key
            then lookup q c
            else view hm q)
    unfolding view
    view-put_chain q =
        let i = bucket_index hm.max_buckets key in
        let j = bucket_index hm.max_buckets q in
        elim (ℕ_discrete i j) [
          | yes e ↦ rw (← e, get_or-set_self hm.buckets i c [] inside) (ground arith)
          | no n ↦ rw (get_or-set_ne hm.buckets i j c [] n) (ground arith)
        ]

    put_chain-IsValid :
        IsDistinct c
        → AllKeys (λ k. bucket_index hm.max_buckets k ≡ bucket_index hm.max_buckets key) c
        → IsValid (put_chain hm key c)
    put_chain-IsValid d p =
        let i = bucket_index hm.max_buckets key in
        record {
          some_buckets = w.some_buckets;
          allocated = length-set hm.buckets i c ∙ w.allocated;
          distinct = λ j. elim (ℕ_discrete i j) [
            | yes e ↦ rw (← e, get_or-set_self hm.buckets i c [] inside) d
            | no n ↦ rw (get_or-set_ne hm.buckets i j c [] n) (w.distinct j)
          ];
          placed = λ j. elim (ℕ_discrete i j) [
            | yes e ↦ rw (← e, get_or-set_self hm.buckets i c [] inside) p
            | no n ↦ rw (get_or-set_ne hm.buckets i j c [] n) (w.placed j)
          ];
        }

  module _ {hm : HashMap V} (w : IsValid hm) (key : CString) where
    -- `hashmap_has_key` is 1 exactly when the map holds a value.
    pub has_key-view : (hashmap_has_key hm key ≡ false) ↔ (view hm key ≡ none)
    unfolding hashmap_has_key view
    has_key-view = (lookup-eq-none key (bucket_of hm key), has_of_lookup key (bucket_of hm key))

    -- On a valid map `hashmap_get` returns what the map holds under the key, and takes it out of
    -- the map; the other keys keep what they hold, and the map stays valid.
    pub hashmap_get_lem :
        ((hashmap_get hm key).0 ≡ view hm key)
        × ((q : CString)
            → view (hashmap_get hm key).1 q ≡ (if str_eq q key then none else view hm q))
        × IsValid (hashmap_get hm key).1
    unfolding hashmap_get
    hashmap_get_lem = (
      unfold view in take_key-found key (bucket_of hm key),
      λ q.
          view-put_chain w key _ q
          ∙ unfold view in
            ground (
              arith,
              lookup-take_key key q (bucket_of hm key)
                  (w.distinct (bucket_index hm.max_buckets key)),
              eq_of_str_eq q key,
            ),
      put_chain-IsValid w key _ (take_key-IsDistinct key _ (w.distinct _))
          (take_key-AllKeys _ key _ (w.placed _)),
    )

    -- On a valid map `hashmap_set` of a key that is not there adds it, changes nothing else, and
    -- keeps the map valid.
    pub hashmap_set_absent :
        (v : V)
        → view hm key ≡ none
        → ((hashmap_set hm key v).0 ≡ exit_success)
          × ((q : CString)
              → view (hashmap_set hm key v).1 q ≡ (if str_eq q key then some v else view hm q))
          × IsValid (hashmap_set hm key v).1
    unfolding hashmap_set
    hashmap_set_absent v e = rw (has_key-view.1 e) (
      refl,
      λ q.
          view-put_chain w key _ q
          ∙ unfold view in
            ground (
              arith,
              lookup-append key q v (bucket_of hm key),
              has_of_lookup q (bucket_of hm key),
              lookup-eq-none q (bucket_of hm key),
              eq_of_str_eq q key,
            ),
      put_chain-IsValid w key _
          (append-IsDistinct key v (bucket_of hm key) (unfold hashmap_has_key in has_key-view.1 e)
            (w.distinct _))
          (append-AllKeys _ key v _ refl (w.placed _)),
    )

    -- `hashmap_set` of a key that is there frees what `item` happens to hold, and stores nothing.
    pub hashmap_set_present :
        (v u : V) → view hm key ≡ some u → hashmap_set hm key v ≡ (frees_garbage, hm)
    unfolding hashmap_set
    hashmap_set_present v u e = ground (arith, has_key-view.0)

get_or-nils {ℓ} : (V : Type ℓ) (n i : ℕ) → get_or {A = Items V} (replicate n []) i [] ≡ []
get_or-nils V zero i = refl
get_or-nils V (suc n) zero = refl
get_or-nils V (suc n) (suc i) = get_or-nils V n i

-- A new map is valid and holds nothing.
pub hashmap_new_lem {ℓ} :
    (V : Type ℓ) (n : ℕ)
    → 0 < n
    → IsValid {V = V} (hashmap_new n) × ((q : CString) → view {V = V} (hashmap_new n) q ≡ none)
unfolding hashmap_new view lookup
hashmap_new_lem V n h = (
  record {
    some_buckets = h;
    allocated = length-replicate n [];
    distinct = λ i. rw (get_or-nils V n i) tt;
    placed = λ i. rw (get_or-nils V n i) tt;
  },
  λ q. rw (get_or-nils V n),
)
