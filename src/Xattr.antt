-- ===== src/Xattr.antt =====
-- crates/metadata/src/xattr.rs: the extended attributes of an inode. The proofs are in the
-- modules below.
pub mod RoundTrip
pub mod Laws
use slicefs.Base.{
  ℕ, zero, suc, ◌+◌, ◌≡◌, Bool, true, false, not, Option, none, some, List, [], ◌∷◌, ◌++◌, map,
  length, ltb, leb, if◌then◌else◌,
}
use slicefs.Base.Words.{Bytes}
use slicefs.Base.Keys.{lex_same}
use slicefs.Base.Utf8.{is_utf8}
use slicefs.Base.Results.{Result, ok, err, ok_or, guard, ◌>>=◌, ◌>>◌}
use slicefs.Digest.{Digest224}
use slicefs.Blockset.{Blockset, push_all}
use slicefs.Counted.{counted, read_counted}
use slicefs.Meta.{MetaError, corrupted}

-- `Vec<(String, Vec<u8>)>`
abbrev pub Xattrs : Type 0
Xattrs = List (Bytes × Bytes)

unfoldable pub serialize_xattrs : Xattrs → Bytes
serialize_xattrs [] = []
serialize_xattrs ((name, value) ∷ xattrs) =
    counted name ++ (counted value ++ serialize_xattrs xattrs)

-- One round of the loop: the attribute at `i`, and the index behind it.
pub read_xattr : ℕ → Bytes → Result MetaError ((Bytes × Bytes) × ℕ)
read_xattr i bytes = do
  (name, i') ← read_counted i bytes
  guard (is_utf8 name) corrupted
  (value, i'') ← read_counted i' bytes
  ok ((name, value), i'')

-- `while i < bytes.len()`. A round takes 8 bytes at least, so `bytes.len()` rounds are enough
-- (`Xattr.RoundTrip.read_xattrs_fuel`).
pub read_xattrs : ℕ → ℕ → Bytes → Xattrs → Result MetaError Xattrs
read_xattrs zero i bytes result = if ltb i (length bytes) then err corrupted else ok result
read_xattrs (suc fuel) i bytes result = elim (ltb i (length bytes)) [
  | false ↦ ok result
  | true ↦ do (entry, i') ← read_xattr i bytes; read_xattrs fuel i' bytes (result ++ entry ∷ [])
]

unfoldable pub deserialize_xattrs : Bytes → Result MetaError Xattrs
unfolding read_xattrs read_xattr
deserialize_xattrs bytes = read_xattrs (length bytes) 0 bytes []

module _ ⦃b : Blockset⦄ where
  open b use {Io, file_storage_get}

  abbrev pub intern_xattrs : Io → Xattrs → Digest224 × Io
  intern_xattrs storage xattrs = push_all storage (serialize_xattrs xattrs)

  unfoldable pub load_xattrs : Io → Digest224 → Result MetaError Xattrs
  load_xattrs io key = ok_or (file_storage_get io key) corrupted >>= deserialize_xattrs

unfoldable pub set_xattr_entry : Xattrs → Bytes → Bytes → Xattrs
set_xattr_entry [] name value = (name, value) ∷ []
set_xattr_entry ((k, v) ∷ xattrs) name value =
    let rest = set_xattr_entry xattrs name value in
    if lex_same k name then (k, value) ∷ xattrs else (k, v) ∷ rest

unfoldable pub get_xattr_entry : Xattrs → Bytes → Option Bytes
get_xattr_entry [] name = none
get_xattr_entry ((k, v) ∷ xattrs) name =
    if lex_same k name then some v else get_xattr_entry xattrs name

unfoldable pub list_xattr_names : Xattrs → List Bytes
list_xattr_names xattrs = map (λ e. e.0) xattrs

-- `retain(|(k, _)| k != name)`
retain_ne : Bytes → Xattrs → Xattrs
retain_ne name [] = []
retain_ne name ((k, v) ∷ xattrs) =
    let rest = retain_ne name xattrs in if lex_same k name then rest else (k, v) ∷ rest

-- Whether an entry was removed, and the list.
unfoldable pub remove_xattr_entry : Xattrs → Bytes → Bool × Xattrs
unfolding retain_ne
remove_xattr_entry xattrs name =
    let kept = retain_ne name xattrs in (ltb (length kept) (length xattrs), kept)
