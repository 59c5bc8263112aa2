-- ===== src/TorrentData/Disk/Writing.antt =====
-- Writing a piece to the files that it overlaps: the loop of `torrent_data_write_chunk` in
-- src/torrent/torrent_data.c.
use uvg_torrent_c.Prelude.{
  ℕ, ◌+◌, ◌-◌, ◌^◌, ◌≤◌, ◌<◌, ◌≡◌, ◌⊎◌, inl, inr, refl, sym, ◌∙◌, true, false, ◌&&◌, List, [], ◌∷◌,
  arith, ltb, leb, ◌==◌, if◌then◌else◌, CString, str_eq_refl, get_or, dec_lt, min,
}
use uvg_torrent_c.Prelude.Words.{word}
use uvg_torrent_c.TorrentData.{FileInfo}
use uvg_torrent_c.TorrentData.Disk.{
  Disk, FileSystem, store_bytes, overlaps, relative_offset, round_bytes, written, write_files,
}
use uvg_torrent_c.TorrentData.Disk.Image.{
  byte_at, total_size, IsTiled, NotAmong, HasOwnPaths, store_elsewhere, byte_at-store,
}

-- Every file opens, and `fwrite` and `fread` transfer all that is asked for.
pub record Works (fs : FileSystem) : Type 0 where
  pub opens : (p : CString) → fs.can_open p ≡ true
  pub writes : (p : CString) (n : ℕ) → fs.fwrite p n ≡ n
  pub reads : (p : CString) (n : ℕ) → fs.fread p n ≡ n

module _ (fs : FileSystem) (works : Works fs) (piece : List ℕ) (pb ps : ℕ) (int : ps < 2 ^ 31) where
  -- Where the loop stands: it has done all, or the next file begins no later than the next byte, and
  -- just there once a byte is done.
  abbrev Ready : ℕ → ℕ → Type 0
  Ready base bytes_done =
      (bytes_done ≡ ps)
      ⊎ ((base ≤ pb + bytes_done)
          × (bytes_done < ps)
          × ((bytes_done ≡ 0) ⊎ (base ≡ pb + bytes_done)))

  -- The bytes from `bytes_done` on have gone to their places in the files from `base` on.
  abbrev Wrote : ℕ → List FileInfo → ℕ → Disk → Disk → Type 0
  Wrote base files bytes_done disk disk' =
      ((pos : ℕ)
        → byte_at disk' files pos ≡ (
            if leb (pb + bytes_done) (base + pos) && ltb (base + pos) (pb + ps)
            then get_or piece (base + pos - pb) 0
            else byte_at disk files pos))
      × ((p : CString) (o : ℕ) → NotAmong p files → disk' p o ≡ disk p o)

  finished :
      (base : ℕ) (files : List FileInfo) (disk : Disk)
      → (write_files fs piece pb ps files ps disk ≡ written ps disk) × Wrote base files ps disk disk
  unfolding write_files
  finished base [] disk = (refl, ((λ pos. ground arith), λ p o h. refl))
  finished base (f ∷ files) disk = (ground arith, ((λ pos. ground arith), λ p o h. refl))

  module _ (f : FileInfo) (files : List FileInfo) (base d : ℕ) (disk : Disk)
      (at_base : f.file_offset ≡ base) (low : base ≤ pb + d) (more : d < ps)
      (where_ : (d ≡ 0) ⊎ (base ≡ pb + d)) (small : base + f.file_size < word)
      (fits : pb + ps < word) where
    offset : relative_offset f pb d ≡ pb + d - base
    offset = rw at_base (omega arith)

    -- A file that ends before the piece begins is passed over, and nothing of the piece is done.
    skipped : (base + f.file_size < pb) → (overlaps f pb ps ≡ false) × (d ≡ 0)
    skipped h = (rw at_base (ground arith), omega arith)

    step_skip :
        (base + f.file_size < pb)
        → write_files fs piece pb ps (f ∷ files) d disk ≡ write_files fs piece pb ps files d disk
    unfolding write_files
    step_skip h =
        let (miss, zero_done) = skipped h in
        let not_done : (d == ps) ≡ false = ground arith in rw (not_done, miss)

    hit :
        (pb ≤ base + f.file_size)
        → (overlaps f pb ps ≡ true)
          × (round_bytes f pb ps d ≡ min (f.file_size - (pb + d - base)) (ps - d))
    hit h = (rw at_base (ground arith), rw offset (ground arith))

    -- The number of bytes of this round, and the disk after it.
    count : ℕ
    count = min (f.file_size - (pb + d - base)) (ps - d)

    next_disk : Disk
    next_disk = store_bytes disk f.file_path (pb + d - base) count piece d

    round_step :
        overlaps f pb ps ≡ true
        → write_files fs piece pb ps (f ∷ files) d disk
          ≡ write_files fs piece pb ps files (d + round_bytes f pb ps d) (
              store_bytes disk f.file_path (relative_offset f pb d) (round_bytes f pb ps d) piece d)
    unfolding write_files
    round_step overlap =
        let not_done : (d == ps) ≡ false = ground arith in
        let same : (round_bytes f pb ps d == round_bytes f pb ps d) ≡ true = ground arith in
        rw (not_done, overlap, works.opens, works.writes, same)

    step_next :
        pb ≤ base + f.file_size
        → write_files fs piece pb ps (f ∷ files) d disk
          ≡ write_files fs piece pb ps files (d + count) next_disk
    unfolding next_disk count
    step_next h =
        let (overlap, n) = hit h in
        round_step overlap ∙ (λ i.
          write_files fs piece pb ps files (d + n i)
            (store_bytes disk f.file_path (offset i) (n i) piece d))

    next_le : d + count ≤ ps
    unfolding count
    next_le = omega arith

    next_Ready : pb ≤ base + f.file_size → Ready (base + f.file_size) (d + count)
    unfolding count
    next_Ready h = elim (dec_lt (f.file_size - (pb + d - base)) (ps - d)) [
      | yes lt ↦ inr (omega arith, omega arith, inr (omega arith))
      | no n ↦ inl (omega arith)
    ]

    -- The bytes of this file after its round, which the later rounds leave alone.
    here :
        (pos : ℕ)
        → pb ≤ base + f.file_size
        → pos < f.file_size
        → next_disk f.file_path pos ≡ (
            if leb (pb + d) (base + pos) && ltb (base + pos) (pb + ps)
            then get_or piece (base + pos - pb) 0
            else disk f.file_path pos)
    unfolding next_disk count store_bytes
    here pos h lt = elim (dec_lt (base + pos) (pb + d)) [
      | yes early ↦ ground (arith, str_eq_refl f.file_path)
      | no late ↦
          let at : d + (pos - (pb + d - base)) ≡ base + pos - pb = omega arith in
          rw (str_eq_refl f.file_path, at) (ground arith)
    ]

    -- The bytes of the later files, whose rounds begin where this one stops.
    beyond :
        (pos : ℕ)
        → pb ≤ base + f.file_size
        → f.file_size ≤ pos
        → (leb (pb + (d + count)) (base + pos) && ltb (base + pos) (pb + ps))
          ≡ (leb (pb + d) (base + pos) && ltb (base + pos) (pb + ps))
    unfolding count
    beyond pos h ge = elim (dec_lt (f.file_size - (pb + d - base)) (ps - d)) [
      | yes lt ↦ ground arith
      | no n ↦ ground arith
    ]

    next_Wrote :
        (disk' : Disk)
        → pb ≤ base + f.file_size
        → NotAmong f.file_path files
        → Wrote (base + f.file_size) files (d + count) next_disk disk'
        → Wrote base (f ∷ files) d disk disk'
    unfolding next_disk
    next_Wrote disk' h own (bytes, others) = (
      λ pos. elim (dec_lt pos f.file_size) [
        | yes lt ↦
            let inside : ltb pos f.file_size ≡ true = ground arith in
            let kept : disk' f.file_path pos ≡ next_disk f.file_path pos =
              others f.file_path pos own in
            let written_here : next_disk f.file_path pos ≡ (
                if leb (pb + d) (base + pos) && ltb (base + pos) (pb + ps)
                then get_or piece (base + pos - pb) 0
                else disk f.file_path pos) =
              here pos h lt in
            rw inside (kept ∙ written_here)
        | no n ↦
            let ge : f.file_size ≤ pos = omega arith in
            let outside : ltb pos f.file_size ≡ false = ground arith in
            let at : base + f.file_size + (pos - f.file_size) ≡ base + pos = omega arith in
            let same =
              byte_at-store disk f.file_path (pb + d - base) count piece d files (pos - f.file_size)
                own in
            let there = bytes (pos - f.file_size) in
            rw outside (rw (sym (beyond pos h ge), sym at, sym same) there)
      ],
      λ p o n.
          others p o n.1 ∙ store_elsewhere disk f.file_path p (pb + d - base) count piece d o n.0,
    )

    skip_Wrote :
        (disk' : Disk)
        → (base + f.file_size < pb)
        → NotAmong f.file_path files
        → Wrote (base + f.file_size) files d disk disk'
        → Wrote base (f ∷ files) d disk disk'
    skip_Wrote disk' h own (bytes, others) = (
      λ pos. elim (dec_lt pos f.file_size) [
        | yes lt ↦
            let inside : ltb pos f.file_size ≡ true = ground arith in
            let early : leb (pb + d) (base + pos) ≡ false = ground arith in
            let kept : disk' f.file_path pos ≡ disk f.file_path pos = others f.file_path pos own in
            rw (inside, early) kept
        | no n ↦
            let outside : ltb pos f.file_size ≡ false = ground arith in
            let at : base + f.file_size + (pos - f.file_size) ≡ base + pos = omega arith in
            let there = bytes (pos - f.file_size) in rw outside (rw (sym at) there)
      ],
      λ p o n. others p o n.1,
    )

  -- The loop from any point at which it can stand.
  rounds :
      (base : ℕ) (files : List FileInfo) (d : ℕ) (disk : Disk)
      → IsTiled base files
      → HasOwnPaths files
      → Ready base d
      → d ≤ ps
      → base + total_size files < word
      → pb + ps < word
      → pb + ps ≤ base + total_size files
      → (disk' : Disk) × (write_files fs piece pb ps files d disk ≡ written ps disk')
        × Wrote base files d disk disk'
  rounds base files d disk tiled own (inl done) le small fits inside =
      rw done (let (run, rest) = finished base files disk in (disk, run, rest))
  rounds base [] d disk tiled own (inr (low, more, w)) le small fits inside = absurd (omega arith)
  rounds base (f ∷ files) d disk tiled own (inr (low, more, w)) le small fits inside =
      elim (dec_lt (base + f.file_size) pb) [
        | yes before ↦
            let zero_done : d ≡ 0 = omega arith in
            let fit : base + f.file_size < word = omega arith in
            let (disk', run, rest) =
              rounds (base + f.file_size) files d disk tiled.1 own.1
                (inr (omega arith, more, inl zero_done)) le (omega arith) fits (omega arith) in
            (
              disk',
              step_skip f files base d disk tiled.0 low more w fit fits before ∙ run,
              skip_Wrote f files base d disk tiled.0 low more w fit fits disk' before own.0 rest,
            )
        | no n ↦
            let reaches : pb ≤ base + f.file_size = omega arith in
            let fit : base + f.file_size < word = omega arith in
            let k = count f files base d disk tiled.0 low more w fit fits in
            let (disk', run, rest) =
              rounds (base + f.file_size) files (d + k)
                (next_disk f files base d disk tiled.0 low more w fit fits) tiled.1 own.1
                (next_Ready f files base d disk tiled.0 low more w fit fits reaches)
                (next_le f files base d disk tiled.0 low more w fit fits) (omega arith) fits
                (omega arith) in
            (
              disk',
              step_next f files base d disk tiled.0 low more w fit fits reaches ∙ run,
              next_Wrote f files base d disk tiled.0 low more w fit fits disk' reaches own.0 rest,
            )
      ]

  from_zero :
      (disk : Disk) (files : List FileInfo) (pos : ℕ)
      → (if leb (pb + 0) (0 + pos) && ltb (0 + pos) (pb + ps)
          then get_or piece (0 + pos - pb) 0
          else byte_at disk files pos)
        ≡ (if leb pb pos && ltb pos (pb + ps)
            then get_or piece (pos - pb) 0
            else byte_at disk files pos)
  from_zero disk files pos =
      let p : pb + 0 ≡ pb = omega arith in let q : 0 + pos ≡ pos = omega arith in rw (p, q) refl

  -- For a piece of `ps` bytes that begins at `pb`, inside the files: the loop ends with `ps` bytes
  -- written. Read as one range, the files then hold the piece from `pb` on and are otherwise as they
  -- were, and no path that is not among them has changed. The files stand one behind the other from
  -- 0 on, have different paths and end below 2 ^ 64; every file opens, every `fwrite` writes all, and
  -- the piece is shorter than 2 ^ 31 bytes.
  pub write_files_lem :
      (files : List FileInfo) (disk : Disk)
      → IsTiled 0 files
      → HasOwnPaths files
      → total_size files < word
      → pb + ps ≤ total_size files
      → (disk' : Disk) × (write_files fs piece pb ps files 0 disk ≡ written ps disk')
        × ((pos : ℕ)
            → byte_at disk' files pos ≡ (
                if leb pb pos && ltb pos (pb + ps)
                then get_or piece (pos - pb) 0
                else byte_at disk files pos))
        × ((p : CString) (o : ℕ) → NotAmong p files → disk' p o ≡ disk p o)
  write_files_lem files disk tiled own small inside =
      let ready : Ready 0 0 = elim (dec_lt 0 ps) [
        | yes more ↦ inr (omega arith, more, inl refl)
        | no n ↦ inl (omega arith)
      ] in
      let (disk', run, rest) =
        rounds 0 files 0 disk tiled own ready (omega arith) (omega arith) (omega arith)
          (omega arith) in
      (disk', run, (λ pos. rest.0 pos ∙ from_zero disk files pos), rest.1)
