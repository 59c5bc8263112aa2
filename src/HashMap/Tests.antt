-- ===== src/HashMap/Tests.antt =====
-- Runs of the code of src/hash_map/hash_map.c, and the laws at concrete maps.
use mathlib.Core.List.{Perm}
use uvg_torrent_c.Prelude.{ℕ, ◌≡◌, refl, str_eq, if◌then◌else◌, none, [], ◌∷◌, CString, arith}
use uvg_torrent_c.HashMap.{
  HashMap, hashmap_new, hashmap_get, hashmap_set, hashmap_has_key, bucket_index, hash_round,
  hash_loop, jenkins_one_at_a_time_hash,
}
use uvg_torrent_c.HashMap.Chain.{has}
use uvg_torrent_c.HashMap.Laws.{view, IsValid, hashmap_get_lem, hashmap_set_absent, hashmap_new_lem}
use uvg_torrent_c.HashMap.Drain.{values, bucket_values, values_of, drain, drain-perm}

abbrev empty_map : HashMap ℕ
empty_map = hashmap_new 4

empty-IsValid : IsValid empty_map
empty-IsValid = (hashmap_new_lem ℕ 4 (omega arith)).0

abbrev key_a : CString
key_a = 97 ∷ []

abbrev one_item : HashMap ℕ
one_item = (hashmap_set empty_map key_a 7).1

empty_view : view empty_map key_a ≡ none
empty_view = (hashmap_new_lem ℕ 4 (omega arith)).1 key_a

hashmap_new_lem_example :
    IsValid {V = ℕ} (hashmap_new 4) × ((q : CString) → view {V = ℕ} (hashmap_new 4) q ≡ none)
hashmap_new_lem_example = hashmap_new_lem ℕ 4 (omega arith)

one-IsValid : IsValid one_item
one-IsValid = (hashmap_set_absent empty-IsValid key_a 7 empty_view).2

hashmap_get_lem_example :
    ((hashmap_get one_item key_a).0 ≡ view one_item key_a)
    × ((q : CString)
        → view (hashmap_get one_item key_a).1 q
          ≡ (if str_eq q key_a then none else view one_item q))
    × IsValid (hashmap_get one_item key_a).1
hashmap_get_lem_example = hashmap_get_lem one-IsValid key_a

one_value : values one_item ≡ 7 ∷ []
unfolding values bucket_values values_of hashmap_set hashmap_new hashmap_has_key bucket_index has
    jenkins_one_at_a_time_hash hash_loop hash_round
one_value = refl

drain-perm_example :
    Perm (drain 2 one_item).0 (values one_item) × (values (drain 2 one_item).1 ≡ [])
drain-perm_example = drain-perm 2 one_item (rw one_value (omega arith))
