-- ===== src/Inode.antt =====
-- crates/metadata/src/inode.rs: the 56-byte record of an inode.
use slicefs.Base.{◌≡◌, refl, ◌==◌, if◌then◌else◌, ◌++◌, length, slice}
use slicefs.Base.Words.{Bytes, le_bytes, from_le, from_le-le_bytes}
use slicefs.Base.Results.{Result, ok, err, ok_or, ◌>>=◌}
use slicefs.Digest.{Digest224}
use slicefs.Blockset.{Blockset, push_all}
use slicefs.Meta.{InodeMeta, IsMeta, MetaError, corrupted}

unfoldable pub serialize_inode : InodeMeta → Bytes
serialize_inode m =
    le_bytes 8 m.ino
    ++ (le_bytes 4 m.mode
        ++ (le_bytes 4 m.uid
            ++ (le_bytes 4 m.gid
                ++ (le_bytes 4 m.nlinks
                    ++ (le_bytes 8 m.size
                        ++ (le_bytes 8 m.mtime_sec
                            ++ (le_bytes 4 m.mtime_nsec
                                ++ (le_bytes 8 m.ctime_sec ++ le_bytes 4 m.ctime_nsec))))))))

unfoldable pub deserialize_inode : Bytes → Result MetaError InodeMeta
deserialize_inode buf =
    if length buf == 56
    then ok (record {
      ino = from_le (slice 0 8 buf);
      mode = from_le (slice 8 12 buf);
      uid = from_le (slice 12 16 buf);
      gid = from_le (slice 16 20 buf);
      nlinks = from_le (slice 20 24 buf);
      size = from_le (slice 24 32 buf);
      mtime_sec = from_le (slice 32 40 buf);
      mtime_nsec = from_le (slice 40 44 buf);
      ctime_sec = from_le (slice 44 52 buf);
      ctime_nsec = from_le (slice 52 56 buf);
    })
    else err corrupted

pub length-serialize_inode : (m : InodeMeta) → length (serialize_inode m) ≡ 56
unfolding serialize_inode
length-serialize_inode m = refl

-- Deserializing a serialized inode gives back every field of an inode whose fields are in range.
pub deserialize_inode-serialize_inode :
    (m : InodeMeta) → IsMeta m → deserialize_inode (serialize_inode m) ≡ ok m
unfolding serialize_inode deserialize_inode
deserialize_inode-serialize_inode m h = λ i. ok (record {
  ino = from_le-le_bytes 8 m.ino h.ino i;
  mode = from_le-le_bytes 4 m.mode h.mode i;
  uid = from_le-le_bytes 4 m.uid h.uid i;
  gid = from_le-le_bytes 4 m.gid h.gid i;
  nlinks = from_le-le_bytes 4 m.nlinks h.nlinks i;
  size = from_le-le_bytes 8 m.size h.size i;
  mtime_sec = from_le-le_bytes 8 m.mtime_sec h.mtime_sec i;
  mtime_nsec = from_le-le_bytes 4 m.mtime_nsec h.mtime_nsec i;
  ctime_sec = from_le-le_bytes 8 m.ctime_sec h.ctime_sec i;
  ctime_nsec = from_le-le_bytes 4 m.ctime_nsec h.ctime_nsec i;
})

module _ ⦃b : Blockset⦄ where
  open b use {Io, file_storage_get}

  abbrev pub intern_inode : Io → InodeMeta → Digest224 × Io
  intern_inode storage m = push_all storage (serialize_inode m)

  unfoldable pub load_inode : Io → Digest224 → Result MetaError InodeMeta
  load_inode io key = ok_or (file_storage_get io key) corrupted >>= deserialize_inode
