-- ===== src/HashMap/Chain.antt =====
-- The chain of one bucket of src/hash_map/hash_map.c.
use uvg_torrent_c.Prelude.{
  ◌≡◌, refl, Bool, true, false, ◌||◌, List, [], ◌∷◌, ◌++◌, Option, none, some, arith, CString,
  str_eq, str_eq_refl, eq_of_str_eq, str_eq_symm, if◌then◌else◌, Bool-cases, inl, inr,
}

-- `struct HashMapItem`, without `next`
abbrev pub Items {ℓ} : Type ℓ → Type ℓ
Items V = List (CString × V)

module _ {ℓ} {V : Type ℓ} where
  -- `while (item != NULL) { if (strcmp(key, item->key) == 0) return 1; ... }`
  unfoldable pub has : CString → Items V → Bool
  has key [] = false
  has key ((k, v) ∷ c) = str_eq key k || has key c

  -- The loop of `hashmap_get`: the item is unlinked where it is found.
  unfoldable pub take_key : CString → Items V → Option V × Items V
  take_key key [] = (none, [])
  take_key key ((k, v) ∷ c) =
      let (found, rest) = take_key key c in
      if str_eq key k then (some v, c) else (found, (k, v) ∷ rest)

  -- `while (item->next != NULL)`, from an item and those behind it.
  unfoldable pub take_last : CString × V → Items V → V × Items V
  take_last (k, v) [] = (v, [])
  take_last item (next ∷ c) = let (value, rest) = take_last next c in (value, item ∷ rest)

  -- What a chain holds under a key.
  unfoldable pub lookup : CString → Items V → Option V
  lookup key [] = none
  lookup key ((k, v) ∷ c) = if str_eq key k then some v else lookup key c

  abbrev pub IsDistinct : Items V → Type 0
  IsDistinct [] = Unit
  IsDistinct ((k, v) ∷ c) = (has k c ≡ false) × IsDistinct c

  pub lookup-eq-none : (key : CString) (c : Items V) → has key c ≡ false → lookup key c ≡ none
  unfolding lookup has
  lookup-eq-none key [] h = refl
  lookup-eq-none key ((k, v) ∷ c) h = ground (arith, lookup-eq-none key c)

  pub has_of_lookup : (key : CString) (c : Items V) → lookup key c ≡ none → has key c ≡ false
  unfolding lookup has
  has_of_lookup key [] h = refl
  has_of_lookup key ((k, v) ∷ c) h = ground (arith, has_of_lookup key c)

  has_congr : (a b : CString) (c : Items V) → str_eq a b ≡ true → has a c ≡ has b c
  has_congr a b c h = rw (eq_of_str_eq a b h)

  pub take_key-found : (key : CString) (c : Items V) → (take_key key c).0 ≡ lookup key c
  unfolding take_key lookup
  take_key-found key [] = refl
  take_key-found key ((k, v) ∷ c) = ground (arith, take_key-found key c)

  module _ (key q : CString) where
    pub has-take_key : (c : Items V) → has q c ≡ false → has q (take_key key c).1 ≡ false
    unfolding take_key has
    has-take_key [] h = refl
    has-take_key ((k, v) ∷ c) h = ground (arith, has-take_key c)

    -- In a chain without a repeated key nothing is left under the key that was taken.
    pub lookup-take_key :
        (c : Items V)
        → IsDistinct c
        → lookup q (take_key key c).1 ≡ (if str_eq q key then none else lookup q c)
    unfolding take_key lookup
    lookup-take_key [] h = ground arith
    lookup-take_key ((k, v) ∷ c) h = ground (
      arith,
      lookup-take_key c h.1,
      lookup-eq-none q c,
      str_eq_refl q,
      eq_of_str_eq key k,
      eq_of_str_eq q k,
      eq_of_str_eq q key,
    )

    pub lookup-append :
        (v : V) (c : Items V)
        → lookup q (c ++ ((key, v) ∷ []))
          ≡ (if has q c then lookup q c else if str_eq q key then some v else none)
    unfolding lookup has
    lookup-append v [] = refl
    lookup-append v ((k, w) ∷ c) = ground (arith, lookup-append v c)

    has-append : (v : V) (c : Items V) → has q (c ++ ((key, v) ∷ [])) ≡ has q c || str_eq q key
    unfolding has
    has-append v [] = ground arith
    has-append v ((k, w) ∷ c) = ground (arith, has-append v c)

  pub take_key-IsDistinct :
      (key : CString) (c : Items V) → IsDistinct c → IsDistinct (take_key key c).1
  unfolding take_key
  take_key-IsDistinct key [] h = tt
  take_key-IsDistinct key ((k, v) ∷ c) h =
      ground (arith, has-take_key key k c, take_key-IsDistinct key c h.1)

  pub append-IsDistinct :
      (key : CString) (v : V) (c : Items V)
      → has key c ≡ false
      → IsDistinct c
      → IsDistinct (c ++ ((key, v) ∷ []))
  unfolding has
  append-IsDistinct key v [] h d = ground arith
  append-IsDistinct key v ((k, w) ∷ c) h d =
      ground (arith, has-append key k v c, str_eq_symm key k, append-IsDistinct key v c)

module _ {ℓ κ} {V : Type ℓ} (P : CString → Type κ) where
  abbrev pub AllKeys : Items V → Type κ
  AllKeys [] = Unit
  AllKeys ((k, v) ∷ c) = P k × AllKeys c

  pub take_key-AllKeys : (key : CString) (c : Items V) → AllKeys c → AllKeys (take_key key c).1
  unfolding take_key
  take_key-AllKeys key [] h = tt
  take_key-AllKeys key ((k, v) ∷ c) h = elim (Bool-cases (str_eq key k)) [
    | inl e ↦ rw e h.1
    | inr e ↦ rw e (h.0, take_key-AllKeys key c h.1)
  ]

  pub append-AllKeys :
      (key : CString) (v : V) (c : Items V) → P key → AllKeys c → AllKeys (c ++ ((key, v) ∷ []))
  append-AllKeys key v [] p h = (p, tt)
  append-AllKeys key v ((k, w) ∷ c) p h = (h.0, append-AllKeys key v c p h.1)
