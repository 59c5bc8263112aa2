-- ===== src/Torrent/Metadata/Layout.antt =====
-- The layout that `torrent_process_metadata_piece` of src/torrent/torrent.c gives the data: the files
-- of the metadata, one behind the other, and the sizes that the rest of the program relies on.
use uvg_torrent_c.Prelude.{
  ℕ, ◌+◌, ◌*◌, ◌%◌, ◌^◌, ◌<◌, ◌≡◌, refl, sym, ap, ◌∙◌, true, false, ltb, none, inl, inr, ◌⊎◌,
  CString, List, [], ◌∷◌, ◌++◌, some, ◌==◌, length, arith, append-nil, append_assoc,
}
use uvg_torrent_c.Prelude.Words.{word, add64}
use uvg_torrent_c.Bitfield
use uvg_torrent_c.HashMap.{hashmap_new}
use uvg_torrent_c.TorrentData.{
  TorrentData, FileInfo, count_of, torrent_data_set_sha1_hashes, torrent_data_add_file,
  torrent_data_set_piece_size, torrent_data_set_chunk_size, torrent_data_set_data_size,
}
use uvg_torrent_c.TorrentData.Disk.Image.{IsTiled, total_size}
use uvg_torrent_c.TorrentData.Geometry.{IsSized}
use uvg_torrent_c.Torrent.{exit_success}
use uvg_torrent_c.Torrent.Metadata.{
  InfoDict, add_single, add_built, add_entry, add_entries, add_files, set_sizes, lay_out,
  path_buffer, torrent_chunk_size,
}
use uvg_torrent_c.Torrent.Metadata.Described.{
  Described, entry_of, entries_of, joined, AreTexts, AreShort, total, files_of, files_of-IsTiled,
  total-files_of, build_lem, sizes-joined,
}

abbrev with_files : TorrentData → List FileInfo → ℕ → TorrentData
with_files td files files_size = record td { files = files; files_size = files_size }

abbrev file_of : TorrentData → List (List ℕ) → ℕ → FileInfo
file_of td components n = record {
  file_path = td.root_path ++ joined components;
  file_offset = td.files_size;
  file_size = n;
}

add_entry_lem :
    (td : TorrentData) (components : List (List ℕ)) (n : ℕ)
    → AreTexts components
    → length (joined components) < path_buffer
    → td.files_size + n < word
    → add_entry td (entry_of (components, n))
      ≡ some (
        exit_success,
        with_files td (td.files ++ (file_of td components n ∷ [])) (td.files_size + n),
      )
unfolding add_entry add_built torrent_data_add_file
add_entry_lem td components n texts fits small =
    let e : (td.files_size + n) % word ≡ td.files_size + n = omega arith in
    rw
      (
        build_lem components path_buffer [] texts (omega (arith, sizes-joined components))
            (omega arith),
        e,
      )
      refl

add_entries_lem :
    (ds : List Described) (td : TorrentData)
    → AreShort ds
    → td.files_size + total ds < word
    → add_entries td (entries_of ds)
      ≡ some (
        exit_success,
        with_files td
            (td.files ++ files_of td.root_path td.files_size ds)
            (td.files_size + total ds),
      )
unfolding add_entries
add_entries_lem [] td short small =
    let e : td.files_size ≡ td.files_size + 0 = omega arith in
    (λ i. some (exit_success, with_files td (sym (append-nil td.files) i) (e i)))
add_entries_lem ((components, n) ∷ ds) td (texts, fits, short) small =
    let f = file_of td components n in
    let next = with_files td (td.files ++ (f ∷ [])) (td.files_size + n) in
    let e : (td.files_size + n) + total ds ≡ td.files_size + (n + total ds) = omega arith in
    let later = files_of td.root_path (td.files_size + n) ds in
    rw (add_entries, add_entry_lem td components n texts fits (omega arith))
      (add_entries_lem ds next short (omega arith)
        ∙ (λ i. some (exit_success, with_files td (append_assoc td.files (f ∷ []) later i) (e i))))

-- The data after its layout.
pub record IsLaidOut (dict : InfoDict) (ds : List Described) (td td' : TorrentData) : Type 0 where
  pub files : td'.files ≡ files_of td.root_path 0 ds
  pub tiled : IsTiled 0 td'.files
  pub covered : total_size td'.files ≡ td'.data_size
  pub sized : IsSized td'
  pub needed : td'.needed ≡ 1
  pub hashed : td'.sha1_hashes ≡ some dict.pieces

-- The data with its sizes.
abbrev sized_data : ℕ → TorrentData → TorrentData
sized_data piece_length td = record td {
  needed = 1;
  initialized = 1;
  piece_size = piece_length;
  chunk_size = torrent_chunk_size;
  data_size = td.files_size;
  piece_count = count_of td.files_size piece_length;
  chunk_count = count_of td.files_size torrent_chunk_size;
  claimed = Bitfield.new (count_of td.files_size torrent_chunk_size) 0 0xFF;
  completed = Bitfield.new (count_of td.files_size torrent_chunk_size) 0 0xFF;
  downloaded = 0;
  left = td.files_size;
  uploaded = 0;
  pieces = hashmap_new 1000;
}

set_sizes_lem :
    (piece_length : ℕ) (td : TorrentData)
    → td.initialized ≡ 0
    → 0 < piece_length
    → set_sizes piece_length (some (exit_success, td))
      ≡ some (exit_success, sized_data piece_length td)
unfolding set_sizes torrent_data_set_data_size torrent_data_set_piece_size
    torrent_data_set_chunk_size
set_sizes_lem piece_length td off pos =
    let f : (td.initialized == 1) ≡ false = ground arith in
    let g : (piece_length == 0) ≡ false = ground arith in
    rw (set_sizes, torrent_data_set_data_size, f, g) refl

-- The files of a dictionary: those of its list, or one that has the name of the dictionary. The paths
-- go into the buffer.
abbrev pub Describes : InfoDict → List Described → Type 0
Describes dict ds =
    ((dict.files ≡ some (entries_of ds)) × AreShort ds)
    ⊎ ((dict.files ≡ none)
        × ((name : CString) × (dict.name ≡ some name)
            × (ds ≡ (name ∷ [], dict.single_length) ∷ [])
            × (length name + 1 < path_buffer)))

module _ (dict : InfoDict) (ds : List Described) (td : TorrentData) (chunks : ℕ) where
  abbrev laid : TorrentData
  laid = sized_data dict.piece_length (
      with_files (record td { sha1_hashes = some dict.pieces }) (files_of td.root_path 0 ds)
        (total ds))

  files_lem :
      td.files ≡ []
      → td.files_size ≡ 0
      → Describes dict ds
      → total ds < word
      → add_files (torrent_data_set_sha1_hashes td dict.pieces) dict
        ≡ some (
          exit_success,
          with_files
              (record td { sha1_hashes = some dict.pieces })
              (files_of td.root_path 0 ds)
              (total ds),
        )
  unfolding add_files add_single torrent_data_add_file torrent_data_set_sha1_hashes
  files_lem none_yet zero_size (inr (single, (name, named, one, short))) small =
      let inside : ltb (length (b'/' ∷ name)) path_buffer ≡ true = ground arith in
      let size : total ds ≡ dict.single_length = rw one (omega arith) in
      let e : add64 td.files_size dict.single_length ≡ total ds = omega arith in
      let path : td.root_path ++ (b'/' ∷ name) ≡ td.root_path ++ joined (name ∷ []) =
        ap (λ (s : CString). td.root_path ++ (b'/' ∷ s)) (sym (append-nil name)) in
      rw (single, named, inside) (rw (none_yet, e, zero_size, one, path) refl)
  files_lem none_yet zero_size (inl (has, short)) small =
      let hashed : TorrentData = record td { sha1_hashes = some dict.pieces } in
      let below : td.files_size + total ds < word = omega arith in
      let e : td.files_size + total ds ≡ total ds = omega arith in
      rw has (
        add_entries_lem ds hashed short below ∙ (λ i. some (
          exit_success,
          with_files hashed (none_yet i ++ files_of td.root_path (zero_size i) ds) (e i),
        )))

  -- The files of a dictionary go one behind the other, and the sizes fit.
  pub layout_lem :
      td.files ≡ []
      → td.files_size ≡ 0
      → td.initialized ≡ 0
      → Describes dict ds
      → dict.piece_length ≡ torrent_chunk_size * chunks
      → 0 < chunks
      → 0 < total ds
      → total ds + dict.piece_length < word
      → total ds < torrent_chunk_size * 2 ^ 31
      → (td' : TorrentData) × (lay_out td dict ≡ some (exit_success, td'))
        × IsLaidOut dict ds td td'
  unfolding lay_out
  layout_lem none_yet zero_size off has whole pos some_data small ints = (
    laid,
    rw (files_lem none_yet zero_size has (omega arith))
        (set_sizes_lem dict.piece_length _ off (omega arith)),
    record {
      files = refl;
      tiled = files_of-IsTiled td.root_path 0 ds;
      covered = total-files_of td.root_path 0 ds;
      sized = record {
        chunk_pos = omega arith;
        chunks_per_piece = chunks;
        whole_chunks = whole;
        some_chunks = pos;
        data_pos = some_data;
        small = small;
        int_ids = ints;
        pieces_counted = refl;
        chunks_counted = refl;
      };
      needed = refl;
      hashed = refl;
    },
  )
