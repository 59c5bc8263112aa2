-- ===== src/Peer/Bencode.antt =====
-- The nodes that src/peer/peer_connect.c and src/peer/peer_ut_metadata.c build with the bencode
-- library and look into. The library itself is an argument.
use uvg_torrent_c.Prelude.{ℕ, ◌≡◌, false, List, [], ◌∷◌, Option, none, some, CString, str_eq}

-- `be_node_t` by the calls that make it: the numbers, strings and lists, and `be_alloc(DICT)` with the
-- entries that `be_dict_add` has put at its end. A number is the 64 bits of a `long long`.
pub data BeNode : Type 0 where
  be_num : ℕ → BeNode
  be_str : List ℕ → BeNode
  be_list : BeNode
  be_list_add : BeNode → BeNode → BeNode
  be_dict : BeNode
  be_dict_add : BeNode → CString → BeNode → BeNode

abbrev pub be_dict_add_num : BeNode → CString → ℕ → BeNode
be_dict_add_num d key n = be_dict_add d key (be_num n)

-- The calls of the library: `be_decode` on the bytes of a message, where `none` is NULL, `be_encode`
-- into a buffer of a size, and the look-ups, where `none` is NULL and a number that is not there is -1.
pub record Bencode : Type 0 where
  pub be_decode : List ℕ → Option BeNode
  pub be_encode : BeNode → ℕ → List ℕ
  pub be_dict_lookup : BeNode → CString → Option BeNode
  pub be_dict_lookup_num : BeNode → CString → ℕ

-- The look-ups find the first entry with the key.
pub record LooksUp (be : Bencode) : Type 0 where
  pub empty : (key : CString) → be.be_dict_lookup be_dict key ≡ none
  pub added :
      (d : BeNode) (key : CString) (val : BeNode)
      → be.be_dict_lookup d key ≡ none
      → be.be_dict_lookup (be_dict_add d key val) key ≡ some val
  pub others :
      (d : BeNode) (key other : CString) (val : BeNode)
      → str_eq other key ≡ false
      → be.be_dict_lookup (be_dict_add d key val) other ≡ be.be_dict_lookup d other
  pub numbers :
      (d : BeNode) (key : CString) (n : ℕ)
      → be.be_dict_lookup d key ≡ some (be_num n)
      → be.be_dict_lookup_num d key ≡ n

abbrev pub ut_metadata_id : ℕ
ut_metadata_id = 3

-- `"m"`, `"ut_metadata"`, `"metadata_size"`, `"msg_type"`, `"piece"` and `"total_size"`.
abbrev pub m_key : CString
m_key = b'm' ∷ []

abbrev pub ut_metadata_key : CString
ut_metadata_key = b'u' ∷ b't' ∷ b'_' ∷ b'm' ∷ b'e' ∷ b't' ∷ b'a' ∷ b'd' ∷ b'a' ∷ b't' ∷ b'a' ∷ []

abbrev pub metadata_size_key : CString
metadata_size_key =
    b'm' ∷ b'e' ∷ b't' ∷ b'a' ∷ b'd' ∷ b'a' ∷ b't' ∷ b'a' ∷ b'_' ∷ b's' ∷ b'i' ∷ b'z' ∷ b'e' ∷ []

abbrev pub msg_type_key : CString
msg_type_key = b'm' ∷ b's' ∷ b'g' ∷ b'_' ∷ b't' ∷ b'y' ∷ b'p' ∷ b'e' ∷ []

abbrev pub piece_key : CString
piece_key = b'p' ∷ b'i' ∷ b'e' ∷ b'c' ∷ b'e' ∷ []

abbrev pub total_size_key : CString
total_size_key = b't' ∷ b'o' ∷ b't' ∷ b'a' ∷ b'l' ∷ b'_' ∷ b's' ∷ b'i' ∷ b'z' ∷ b'e' ∷ []
