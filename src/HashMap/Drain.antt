-- ===== src/HashMap/Drain.antt =====
-- `hashmap_empty` of src/hash_map/hash_map.c, called until it returns NULL, as
-- `torrent_data_free` and `torrent_free` call it.
use mathlib.Core.List.{Perm, perm_middle}
use mathlib.Core.List.Perm
use uvg_torrent_c.Prelude.{
  ℕ, zero, suc, ◌+◌, ◌<◌, ◌≡◌, refl, ◌∙◌, ap, List, [], ◌∷◌, ◌++◌, append_assoc, Option, none, some,
  arith, CString, length, length-append,
}
use uvg_torrent_c.HashMap.{HashMap, empty_buckets, hashmap_empty}
use uvg_torrent_c.HashMap.Chain.{Items, take_last}

module _ {ℓ} {V : Type ℓ} where
  -- All values, bucket by bucket.
  unfoldable pub values_of : Items V → List V
  values_of [] = []
  values_of ((k, v) ∷ c) = v ∷ values_of c

  unfoldable pub bucket_values : List (Items V) → List V
  bucket_values [] = []
  bucket_values (c ∷ bs) = values_of c ++ bucket_values bs

  unfoldable pub values : HashMap V → List V
  unfolding bucket_values
  values hm = bucket_values hm.buckets

  take_last-values :
      (item : CString × V) (c : Items V)
      → values_of (item ∷ c) ≡ values_of (take_last item c).1 ++ ((take_last item c).0 ∷ [])
  unfolding values_of take_last
  take_last-values (k, v) [] = refl
  take_last-values (k, v) (next ∷ c) = ap (λ l. v ∷ l) (take_last-values next c)

  -- What one call does to the values.
  abbrev Removes : List V → Option V → List V → Type ℓ
  Removes before none after = (before ≡ []) × (after ≡ [])
  Removes before (some v) after =
      (xs : List V) × (ys : List V) × (before ≡ xs ++ (v ∷ ys)) × (after ≡ xs ++ ys)

  empty_buckets-Removes :
      (bs : List (Items V))
      → Removes (bucket_values bs) (empty_buckets bs).0 (bucket_values (empty_buckets bs).1)
  unfolding empty_buckets bucket_values values_of
  empty_buckets-Removes [] = (refl, refl)
  empty_buckets-Removes ([] ∷ bs) = empty_buckets-Removes bs
  empty_buckets-Removes ((item ∷ c) ∷ bs) = (
    values_of (take_last item c).1,
    bucket_values bs,
    ap (λ l. l ++ bucket_values bs) (take_last-values item c)
        ∙ append_assoc (values_of (take_last item c).1) ((take_last item c).0 ∷ [])
            (bucket_values bs),
    refl,
  )

  -- `while ((value = hashmap_empty(hm)) != NULL)`: the values in the order of the calls.
  unfoldable pub drain : ℕ → HashMap V → List V × HashMap V
  drain zero hm = ([], hm)
  drain (suc fuel) hm = elim (hashmap_empty hm).0 [
    | none ↦ ([], (hashmap_empty hm).1)
    | some v ↦ (v ∷ (drain fuel (hashmap_empty hm).1).0, (drain fuel (hashmap_empty hm).1).1)
  ]

  hashmap_empty-Removes :
      (hm : HashMap V) → Removes (values hm) (hashmap_empty hm).0 (values (hashmap_empty hm).1)
  unfolding hashmap_empty values
  hashmap_empty-Removes hm = empty_buckets-Removes hm.buckets

  -- One call of the loop, by its result.
  drain_step :
      (fuel : ℕ) (hm : HashMap V) (o : Option V)
      → (hashmap_empty hm).0 ≡ o
      → Removes (values hm) o (values (hashmap_empty hm).1)
      → (length (values (hashmap_empty hm).1) < fuel
          → Perm (drain fuel (hashmap_empty hm).1).0 (values (hashmap_empty hm).1)
            × (values (drain fuel (hashmap_empty hm).1).1 ≡ []))
      → length (values hm) < suc fuel
      → Perm (drain (suc fuel) hm).0 (values hm) × (values (drain (suc fuel) hm).1 ≡ [])
  unfolding drain
  drain_step fuel hm none e r ih h = rw (e, drain, r.0) (Perm.refl [], r.1)
  drain_step fuel hm (some v) e (xs, ys, p, q) ih h =
      let before : length (values hm) ≡ length xs + suc (length ys) =
        ap length p ∙ length-append xs (v ∷ ys) in
      let after : length (values (hashmap_empty hm).1) ≡ length xs + length ys =
        ap length q ∙ length-append xs ys in
      let rest = ih (omega arith) in
      rw (e, drain, p)
        (Perm.trans (Perm.cons v (rw q at (rest.0))) (Perm.symm (perm_middle xs ys)), rest.1)

  -- Draining a map returns every value that it holds, each as often as it is held, and leaves no
  -- value; one call more than there are values is enough to meet the NULL at the end.
  pub drain-perm :
      (fuel : ℕ) (hm : HashMap V)
      → length (values hm) < fuel
      → Perm (drain fuel hm).0 (values hm) × (values (drain fuel hm).1 ≡ [])
  drain-perm zero hm h = absurd (omega arith)
  drain-perm (suc fuel) hm h =
      drain_step fuel hm _ refl (hashmap_empty-Removes hm) (drain-perm fuel (hashmap_empty hm).1) h
