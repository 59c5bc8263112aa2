-- ===== src/TorrentData/Disk/Image.antt =====
-- The files of src/torrent/torrent_data.c laid end to end: the data of the torrent as one range.
use uvg_torrent_c.Prelude.{
  ℕ, ◌+◌, ◌-◌, ◌≡◌, refl, false, List, [], ◌∷◌, arith, ltb, if◌then◌else◌, CString, str_eq,
  str_eq_symm,
}
use uvg_torrent_c.TorrentData.{FileInfo}
use uvg_torrent_c.TorrentData.Disk.{Disk, store_bytes}

-- The byte at a position of the range.
abbrev pub byte_at : Disk → List FileInfo → ℕ → ℕ
byte_at disk [] pos = 0
byte_at disk (f ∷ files) pos =
    if ltb pos f.file_size then disk f.file_path pos else byte_at disk files (pos - f.file_size)

abbrev pub total_size : List FileInfo → ℕ
total_size [] = 0
total_size (f ∷ files) = f.file_size + total_size files

-- The files stand one behind the other, the first at `base`, as `torrent_data_add_file` leaves them.
abbrev pub IsTiled : ℕ → List FileInfo → Type 0
IsTiled base [] = Unit
IsTiled base (f ∷ files) = (f.file_offset ≡ base) × IsTiled (base + f.file_size) files

abbrev pub NotAmong : CString → List FileInfo → Type 0
NotAmong p [] = Unit
NotAmong p (f ∷ files) = (str_eq p f.file_path ≡ false) × NotAmong p files

-- No two files have one path.
abbrev pub HasOwnPaths : List FileInfo → Type 0
HasOwnPaths [] = Unit
HasOwnPaths (f ∷ files) = NotAmong f.file_path files × HasOwnPaths files

-- A write to another path.
pub store_elsewhere :
    (disk : Disk) (path p : CString) (offset n : ℕ) (source : List ℕ) (from o : ℕ)
    → str_eq p path ≡ false
    → store_bytes disk path offset n source from p o ≡ disk p o
unfolding store_bytes
store_elsewhere disk path p offset n source from o e = ground arith

pub byte_at-store :
    (disk : Disk) (path : CString) (offset n : ℕ) (source : List ℕ) (from : ℕ)
    (files : List FileInfo) (pos : ℕ)
    → NotAmong path files
    → byte_at (store_bytes disk path offset n source from) files pos ≡ byte_at disk files pos
byte_at-store disk path offset n source from [] pos h = refl
byte_at-store disk path offset n source from (f ∷ files) pos h = ground (
  arith,
  store_elsewhere disk path f.file_path offset n source from pos,
  str_eq_symm path f.file_path,
  byte_at-store disk path offset n source from files (pos - f.file_size) h.1,
)
