-- ===== src/Torrent/Metadata/Described.antt =====
-- The files that the metadata describes, and the paths that src/torrent/torrent.c builds of them.
use uvg_torrent_c.Prelude.{
  ℕ, zero, suc, ◌+◌, ◌-◌, ◌≤◌, ◌<◌, ◌≡◌, refl, ap, sym, true, false, List, [], ◌∷◌, ◌++◌, some, ltb,
  CString, length, arith, append-nil, append_assoc, length-append,
}
use uvg_torrent_c.TorrentData.{FileInfo}
use uvg_torrent_c.TorrentData.Disk.Image.{IsTiled, total_size}
use uvg_torrent_c.Torrent.Metadata.{FileEntry, until_nul, built, build_path, path_buffer}

-- A file as the metadata describes it: the components of its path, and its length.
abbrev pub Described : Type 0
Described = List (List ℕ) × ℕ

abbrev pub entry_of : Described → FileEntry
entry_of (components, file_length) = record { path = some components; file_length = file_length }

abbrev pub entries_of : List Described → List FileEntry
entries_of [] = []
entries_of (d ∷ ds) = entry_of d ∷ entries_of ds

-- "/a/b/c"
abbrev pub joined : List (List ℕ) → CString
joined [] = []
joined (c ∷ components) = b'/' ∷ (c ++ joined components)

abbrev pub IsText : List ℕ → Type 0
IsText [] = Unit
IsText (b ∷ bs) = (0 < b) × IsText bs

abbrev pub AreTexts : List (List ℕ) → Type 0
AreTexts [] = Unit
AreTexts (c ∷ components) = IsText c × AreTexts components

-- No path has a NUL, and each goes into the buffer.
abbrev pub AreShort : List Described → Type 0
AreShort [] = Unit
AreShort ((components, file_length) ∷ ds) =
    AreTexts components × (length (joined components) < path_buffer) × AreShort ds

abbrev pub total : List Described → ℕ
total [] = 0
total ((components, file_length) ∷ ds) = file_length + total ds

-- The files, the first at `base`.
abbrev pub files_of : CString → ℕ → List Described → List FileInfo
files_of root base [] = []
files_of root base ((components, file_length) ∷ ds) =
    record { file_path = root ++ joined components; file_offset = base; file_size = file_length }
    ∷ files_of root (base + file_length) ds

pub files_of-IsTiled :
    (root : CString) (base : ℕ) (ds : List Described) → IsTiled base (files_of root base ds)
files_of-IsTiled root base [] = tt
files_of-IsTiled root base ((components, n) ∷ ds) = (refl, files_of-IsTiled root (base + n) ds)

pub total-files_of :
    (root : CString) (base : ℕ) (ds : List Described)
    → total_size (files_of root base ds) ≡ total ds
total-files_of root base [] = refl
total-files_of root base ((components, n) ∷ ds) =
    ap (λ m. n + m) (total-files_of root (base + n) ds)

until_nul_text : (c : List ℕ) → IsText c → until_nul c ≡ c
until_nul_text [] h = refl
until_nul_text (zero ∷ bs) (pos, h) = absurd (omega arith)
until_nul_text (suc b ∷ bs) (pos, h) = ap (λ s. suc b ∷ s) (until_nul_text bs h)

abbrev sizes : List (List ℕ) → ℕ
sizes [] = 0
sizes (c ∷ components) = length c + sizes components

pub build_lem :
    (components : List (List ℕ)) (remaining : ℕ) (acc : CString)
    → AreTexts components
    → sizes components ≤ remaining
    → length acc + length (joined components) < path_buffer
    → build_path remaining acc components ≡ built (acc ++ joined components)
unfolding build_path
build_lem [] remaining acc texts room fits = ap built (sym (append-nil acc))
build_lem (c ∷ components) remaining acc (text, texts) room fits =
    let longer = acc ++ (b'/' ∷ c) in
    let grown : length longer ≡ length acc + suc (length c) = length-append acc (b'/' ∷ c) in
    let whole : length (joined (c ∷ components)) ≡ suc (length c + length (joined components)) =
      ap suc (length-append c (joined components)) in
    let enough : ltb remaining (length c) ≡ false = ground arith in
    let inside : ltb (length longer) path_buffer ≡ true = ground (arith, grown, whole) in
    let rest =
      build_lem components (remaining - length c) longer texts (omega arith)
        (omega (arith, grown, whole)) in
    rw (until_nul_text c text, enough, inside, rest)
      (ap built (append_assoc acc (b'/' ∷ c) (joined components)))

pub sizes-joined : (components : List (List ℕ)) → sizes components ≤ length (joined components)
sizes-joined [] = omega arith
sizes-joined (c ∷ components) =
    omega (arith, length-append c (joined components), sizes-joined components)
