-- ===== src/Store/Files.antt =====
-- crates/metadata/src/store.rs: the manifests and the extended attributes.
use slicefs.Base.{ℕ, none, some, List, [], true, false}
use slicefs.Base.Words.{Bytes}
use slicefs.Base.Keys.{nat_key}
use slicefs.Base.Results.{Result, ok, err, ok_or, ◌>>=◌, and_then}
use slicefs.Base.Map
use slicefs.Base.Map.{Map}
use slicefs.Digest.{Digest224}
use slicefs.Blockset.{Blockset}
use slicefs.Meta.{MetaError, not_found}
use slicefs.Manifest.{intern_manifest, load_manifest}
use slicefs.Xattr.{
  Xattrs, intern_xattrs, load_xattrs, set_xattr_entry, get_xattr_entry, list_xattr_names,
  remove_xattr_entry,
}
use slicefs.Store.{Store}

module _ ⦃b : Blockset⦄ where
  open b use {Io}

  unfoldable pub set_manifest : Store Io → ℕ → List Digest224 → Result MetaError Unit × Store Io
  set_manifest s ino blocks =
      let (digest, io) = intern_manifest s.io blocks in
      (ok tt, record s { io = io; manifest_data = Map.insert ino digest s.manifest_data })

  unfoldable pub get_manifest : Store Io → ℕ → Result MetaError (List Digest224)
  get_manifest s ino = ok_or (Map.get s.manifest_data ino) (not_found ino) >>= load_manifest s.io

  -- The attributes that an inode has before `set_xattr`: none, or those of its node.
  unfoldable pub existing_xattrs : Store Io → ℕ → Result MetaError Xattrs
  existing_xattrs s ino = elim (Map.get s.xattr_data ino) [
    | none ↦ ok []
    | some digest ↦ load_xattrs s.io digest
  ]

  abbrev pub put_xattrs : Store Io → ℕ → Xattrs → Store Io
  put_xattrs s ino xattrs =
      let (new_digest, io) = intern_xattrs s.io xattrs in
      record s { io = io; xattr_data = Map.insert ino new_digest s.xattr_data }

  unfoldable pub set_xattr : Store Io → ℕ → Bytes → Bytes → Result MetaError Unit × Store Io
  unfolding existing_xattrs
  set_xattr s ino name value =
      and_then (existing_xattrs s ino, s)
        (λ xattrs s. (ok tt, put_xattrs s ino (set_xattr_entry xattrs name value)))

  unfoldable pub get_xattr : Store Io → ℕ → Bytes → Result MetaError Bytes
  get_xattr s ino name = ok_or (Map.get s.xattr_data ino) (not_found ino) >>= λ digest.
      load_xattrs s.io digest >>= λ xattrs. ok_or (get_xattr_entry xattrs name) (not_found ino)

  unfoldable pub list_xattrs : Store Io → ℕ → Result MetaError (List Bytes)
  list_xattrs s ino = elim (Map.get s.xattr_data ino) [
    | none ↦ ok []
    | some digest ↦ load_xattrs s.io digest >>= λ xattrs. ok (list_xattr_names xattrs)
  ]

  unfoldable pub remove_xattr : Store Io → ℕ → Bytes → Result MetaError Unit × Store Io
  remove_xattr s ino name =
      and_then (ok_or (Map.get s.xattr_data ino) (not_found ino) >>= load_xattrs s.io, s)
        (λ xattrs s.
          let (removed, kept) = remove_xattr_entry xattrs name in
          elim removed [ false ↦ (err (not_found ino), s) | true ↦ (ok tt, put_xattrs s ino kept) ])
