-- ===== src/Ir/Blob.antt =====
-- crates/kwokka-ir/src/flat/reader.rs, `validate`, and crates/kwokka-ir/src/node/blob.rs.
pub mod Trust
use kwokka.Base.{
  ℕ, Bool, true, false, not, ◌==◌, ltb, leb, List, [], ◌∷◌, length, Option, none, some,
}
use kwokka.Ir.Fault.{
  truncated, bad_magic, unsupported_version, bad_tag, Result, ok, ◌>>=◌, ◌>>◌, require,
}
use kwokka.Ir.Bytes.{get_range, read_u16, read_u32}
use kwokka.Ir.Node.{read_record, same_tag, to_u16, conductor_spec}
use kwokka.Ir.View.{ConductorView, parse_view}

-- `MAGIC`, "KWIR".
abbrev pub magic : List ℕ
magic = b'K' ∷ b'W' ∷ b'I' ∷ b'R' ∷ []

abbrev pub version : ℕ
version = 1

abbrev pub header_len : ℕ
header_len = 16

abbrev pub root_offset_field : ℕ
root_offset_field = 12

-- `KwokkaIr`: a blob that `validate` has passed.
pub record KwokkaIr : Type 0 where
  pub bytes : List ℕ

abbrev same_bytes : List ℕ → List ℕ → Bool
same_bytes [] [] = true
same_bytes [] (y ∷ ys) = false
same_bytes (x ∷ xs) [] = false
same_bytes (x ∷ xs) (y ∷ ys) = elim (x == y) [ true ↦ same_bytes xs ys | false ↦ false ]

-- `matches!(bytes.get(..4), Some(leading) if *leading == MAGIC)`.
abbrev pub has_magic : Option (List ℕ) → Bool
has_magic none = false
has_magic (some leading) = same_bytes leading magic

-- `KwokkaIr::conductor`.
unfoldable pub conductor : KwokkaIr → Result ConductorView
conductor ir = do
  root_offset ← read_u32 ir.bytes root_offset_field
  root ← read_record ir.bytes root_offset
  require (same_tag root.tag conductor_spec) (bad_tag (to_u16 root.tag))
  parse_view root.body

unfoldable pub validate : List ℕ → Result KwokkaIr
validate bytes = do
  require (not (ltb (length bytes) header_len)) truncated
  require (has_magic (get_range bytes 0 4)) bad_magic
  found ← read_u16 bytes 4
  require (leb found version) (unsupported_version found)
  total_len ← read_u32 bytes 8
  require (total_len == length bytes) truncated
  root_offset ← read_u32 bytes root_offset_field
  root ← read_record bytes root_offset
  require (same_tag root.tag conductor_spec) (bad_tag (to_u16 root.tag))
  view ← parse_view root.body
  ok (record { bytes = bytes })
