-- ===== src/Torrent/Magnet/Digits.antt =====
-- The hash of a magnet link, as src/torrent/torrent.c reads it from its hexadecimal digits.
use uvg_torrent_c.Prelude.{
  ℕ, suc, ◌+◌, ◌*◌, ◌/◌, ◌%◌, ◌<◌, ◌≡◌, refl, ap, sym, ◌∙◌, false, List, [], ◌∷◌, ◌++◌, Option,
  none, some, ltb, ◌==◌, if◌then◌else◌, CString, drop, length, arith, append_assoc, length-append,
}
use uvg_torrent_c.Torrent.Magnet.{after_last, scan_bytes}

-- A digit below sixteen, in small letters, and the two digits of each byte.
abbrev pub hex_digit : ℕ → ℕ
hex_digit d = if ltb d 10 then 48 + d else 87 + d

abbrev pub to_hex : List ℕ → CString
to_hex [] = []
to_hex (b ∷ bs) = hex_digit (b / 16) ∷ hex_digit (b % 16) ∷ to_hex bs

-- "%2hhx" reads two hexadecimal digits, whatever follows.
abbrev pub ReadsHex : (CString → Option ℕ) → Type 0
ReadsHex sscanf_hex =
    (b : ℕ) (rest : CString)
    → b < 256
    → sscanf_hex (hex_digit (b / 16) ∷ hex_digit (b % 16) ∷ rest) ≡ some b

abbrev pub AllBytes : List ℕ → Type 0
AllBytes [] = Unit
AllBytes (b ∷ bs) = (b < 256) × AllBytes bs

-- The text does not have the character.
abbrev pub NoneIs : ℕ → CString → Type 0
NoneIs c [] = Unit
NoneIs c (b ∷ s) = ((b == c) ≡ false) × NoneIs c s

digit_no_colon : (d : ℕ) → d < 16 → (hex_digit d == b':') ≡ false
digit_no_colon d lt = ground arith

length-to_hex : (bs : List ℕ) → length (to_hex bs) ≡ 2 * length bs
length-to_hex [] = refl
length-to_hex (b ∷ bs) = omega (arith, length-to_hex bs)

drop-to_hex : (front back : List ℕ) → drop (2 * length front) (to_hex (front ++ back)) ≡ to_hex back
drop-to_hex [] back = refl
drop-to_hex (b ∷ front) back =
    let e : 2 * suc (length front) ≡ suc (suc (2 * length front)) = omega arith in
    rw e (drop-to_hex front back)

module _ (sscanf_hex : CString → Option ℕ) (reads : ReadsHex sscanf_hex) (old : List ℕ) where
  -- Of a text of digits each byte is read, from any place on.
  pub scan_lem :
      (text : CString) (front back : List ℕ) (count : ℕ)
      → text ≡ to_hex (front ++ back)
      → count ≡ length front
      → AllBytes back
      → scan_bytes sscanf_hex text old count (length back) ≡ some back
  unfolding scan_bytes
  scan_lem text front [] count e n all = refl
  scan_lem text front (b ∷ back) count e n (lt, all) =
      let longer : text ≡ to_hex ((front ++ (b ∷ [])) ++ back) =
        e ∙ ap to_hex (sym (append_assoc front (b ∷ []) back)) in
      let next : count + 1 ≡ length (front ++ (b ∷ [])) =
        omega (arith, length-append front (b ∷ [])) in
      let rest = scan_lem text (front ++ (b ∷ [])) back (count + 1) longer next all in
      let inside : ltb (length text) (2 * count) ≡ false =
        ground (
          arith,
          ap length e,
          length-to_hex (front ++ (b ∷ back)),
          length-append front (b ∷ back),
        ) in
      let here : drop (2 * count) text ≡ to_hex (b ∷ back) =
        rw (e, n) (drop-to_hex front (b ∷ back)) in
      rw (inside, rest, here, reads b (to_hex back) lt) refl

-- What follows the last colon.
after_last-none : (c : ℕ) (s : CString) → NoneIs c s → after_last c s ≡ none
unfolding after_last
after_last-none c [] h = refl
after_last-none c (b ∷ s) (n, h) = rw (after_last-none c s h, n) refl

pub after_last_lem :
    (c : ℕ) (front back : CString) → NoneIs c back → after_last c (front ++ (c ∷ back)) ≡ some back
unfolding after_last
after_last_lem c [] back h = rw (after_last-none c back h) (ground arith)
after_last_lem c (b ∷ front) back h = rw (after_last_lem c front back h) refl

pub hex_no_colon : (bs : List ℕ) → AllBytes bs → NoneIs b':' (to_hex bs)
hex_no_colon [] all = tt
hex_no_colon (b ∷ bs) (lt, all) = (
  digit_no_colon (b / 16) (omega arith),
  (digit_no_colon (b % 16) (omega arith), hex_no_colon bs all),
)
