-- ===== src/HashMap.antt =====
-- src/hash_map/hash_map.c: a hash map with separate chaining over C strings.
-- `malloc` succeeds here. A chain is the list of its items in the order of the `next` pointers.
mod Tests
pub mod Chain
pub mod Laws
pub mod Drain
use Prim.Native.Nat.{bit_xor}
use uvg_torrent_c.Prelude.{
  ℕ, zero, suc, ◌+◌, ◌-◌, ◌*◌, ◌/◌, ◌%◌, ◌^◌, Bool, true, false, List, [], ◌∷◌, ◌++◌, Option, none,
  some, ltb, CString, if◌then◌else◌, get_or, set, replicate,
}
use Chain.{Items, has, take_key, take_last}

abbrev u32_mod : ℕ
u32_mod = 2 ^ 32

-- `hash += key[i]`: `char` is signed, so a byte from 128 on is extended by ones.
abbrev char_to_u32 : ℕ → ℕ
char_to_u32 c = if ltb c 128 then c else u32_mod - 256 + c

-- One round of the loop, each assignment of it a `let`.
unfoldable pub hash_round : ℕ → ℕ → ℕ
hash_round hash c =
    let a : ℕ = (hash + char_to_u32 c) % u32_mod in
    let b : ℕ = (a + a * 2 ^ 10) % u32_mod in bit_xor b (b / 2 ^ 6)

unfoldable pub hash_loop : CString → ℕ → ℕ
hash_loop [] hash = hash
hash_loop (c ∷ key) hash = hash_loop key (hash_round hash c)

unfoldable pub jenkins_one_at_a_time_hash : CString → ℕ
jenkins_one_at_a_time_hash key =
    let h : ℕ = hash_loop key 0 in
    let a : ℕ = (h + h * 2 ^ 3) % u32_mod in
    let b : ℕ = bit_xor a (a / 2 ^ 11) in (b + b * 2 ^ 15) % u32_mod

-- `int index = hash % hm->max_buckets`
unfoldable pub bucket_index : ℕ → CString → ℕ
bucket_index max_buckets key = jenkins_one_at_a_time_hash key % max_buckets

pub record HashMap {ℓ} (V : Type ℓ) : Type ℓ where
  pub max_buckets : ℕ
  pub buckets : List (Items V)

-- `hashmap_set` succeeds; where the key is there, the jump to `error:` passes over the initialization of
-- `item`, and whatever `item` holds is freed.
pub data Status : Type 0 where
  exit_success frees_garbage : Status

unfoldable pub hashmap_new {ℓ} : {V : Type ℓ} → ℕ → HashMap V
hashmap_new max_buckets = record { max_buckets = max_buckets; buckets = replicate max_buckets [] }

module _ {ℓ} {V : Type ℓ} where
  -- `hm->buckets[index]`
  abbrev pub bucket_of : HashMap V → CString → Items V
  bucket_of hm key = get_or hm.buckets (bucket_index hm.max_buckets key) []

  -- The item that is found leaves the map: `none` is NULL.
  unfoldable pub hashmap_get : HashMap V → CString → Option V × HashMap V
  hashmap_get hm key =
      let (found, rest) = take_key key (bucket_of hm key) in
      (found, record hm { buckets = set hm.buckets (bucket_index hm.max_buckets key) rest })

  unfoldable pub hashmap_has_key : HashMap V → CString → Bool
  hashmap_has_key hm key = has key (bucket_of hm key)

  -- A new item goes to the end of its chain; for a key that is there the call has no defined result.
  unfoldable pub hashmap_set : HashMap V → CString → V → Status × HashMap V
  hashmap_set hm key value = if hashmap_has_key hm key then (frees_garbage, hm) else (
    exit_success,
    record hm {
      buckets =
          set hm.buckets (bucket_index hm.max_buckets key)
            (bucket_of hm key ++ ((key, value) ∷ []));
    },
  )

  -- The first bucket that is not NULL gives up its last item.
  unfoldable pub empty_buckets : List (Items V) → Option V × List (Items V)
  empty_buckets [] = (none, [])
  empty_buckets ([] ∷ bs) = let (value, rest) = empty_buckets bs in (value, [] ∷ rest)
  empty_buckets ((item ∷ c) ∷ bs) = let (value, rest) = take_last item c in (some value, rest ∷ bs)

  unfoldable pub hashmap_empty : HashMap V → Option V × HashMap V
  hashmap_empty hm =
      let (value, bs) = empty_buckets hm.buckets in (value, record hm { buckets = bs })
