-- ===== src/Blockset.antt =====
-- The crate `blockset` (the submodule crates/data-id), which the metadata engine stores its byte
-- strings in: `State::push_all` over a `FileStorageAdd`, and `file_storage_get`. It is a parameter.
pub mod Accumulator
use slicefs.Base.{
  ◌≡◌, ◌≢◌, sym, ap, ◌∙◌, Option, none, some, inl, inr, Bool-cases, List, [], ◌∷◌, All,
}
use slicefs.Base.Words.{Bytes}
use slicefs.Digest.{Digest224, IsDigest, digest_key, digest_same_iff}

-- `push_all` writes a byte string into the storage and returns its digest, which is a function of
-- the bytes. What is read at a digest is what was pushed last under that digest.
pub record Blockset : Type 1 where
  pub Io : Type 0
  pub digest : Bytes → Digest224
  pub push : Io → Bytes → Io
  pub file_storage_get : Io → Digest224 → Option Bytes
  pub digest-IsDigest : (bytes : Bytes) → IsDigest (digest bytes)
  pub get-push_self :
      (io : Io) (bytes : Bytes) → file_storage_get (push io bytes) (digest bytes) ≡ some bytes
  pub get-push_ne :
      (io : Io) (bytes : Bytes) (d : Digest224)
      → d ≢ digest bytes
      → file_storage_get (push io bytes) d ≡ file_storage_get io d

module _ ⦃b : Blockset⦄ where
  open b use {Io, digest, push, file_storage_get, get-push_self, get-push_ne}

  -- `State::push_all(storage, bytes)`
  abbrev pub push_all : Io → Bytes → Digest224 × Io
  push_all io bytes = (digest bytes, push io bytes)

  -- No other content is stored under the digest of `bytes`: the hash does not collide here.
  abbrev pub NoClash : Io → Bytes → Type 0
  NoClash io bytes = (old : Bytes) → file_storage_get io (digest bytes) ≡ some old → old ≡ bytes

  -- Nothing collides where nothing is stored.
  pub NoClash-of_none :
      (io : Io) (bytes : Bytes) → file_storage_get io (digest bytes) ≡ none → NoClash io bytes
  NoClash-of_none io bytes e = λ old found. cc (e, found)

  -- A push that does not collide keeps what can be read.
  pub get-push_keep :
      (io : Io) (bytes x : Bytes) (d : Digest224)
      → NoClash io bytes
      → file_storage_get io d ≡ some x
      → file_storage_get (push io bytes) d ≡ some x
  get-push_keep io bytes x d clash e = elim (Bool-cases (digest_key.same d (digest bytes))) [
    | inl s ↦
        let q : d ≡ digest bytes = (digest_same_iff d (digest bytes)).0 s in
        rw q (get-push_self io bytes ∙ sym (ap some (clash x (rw q at e))))
    | inr n ↦ get-push_ne io bytes d (λ q. cc (n, (digest_same_iff d (digest bytes)).1 q)) ∙ e
  ]

  -- Pushing several byte strings, one after the other.
  abbrev pub push_many : Io → List Bytes → Io
  push_many io [] = io
  push_many io (x ∷ xs) = push_many (push io x) xs

  -- Of these byte strings, those with the same digest are the same.
  abbrev pub Apart : Bytes → List Bytes → Type 0
  Apart x ys = All (λ y. digest x ≡ digest y → x ≡ y) ys

  abbrev pub AllApart : List Bytes → Type 0
  AllApart [] = Unit
  AllApart (x ∷ xs) = Apart x xs × AllApart xs

  get-push_many_keep :
      (io : Io) (x : Bytes) (ys : List Bytes)
      → Apart x ys
      → file_storage_get io (digest x) ≡ some x
      → file_storage_get (push_many io ys) (digest x) ≡ some x
  get-push_many_keep io x [] h e = e
  get-push_many_keep io x (y ∷ ys) h e =
      get-push_many_keep (push io y) x ys h.1
        (elim (Bool-cases (digest_key.same (digest x) (digest y))) [
          | inl s ↦
              let q : digest x ≡ digest y = (digest_same_iff (digest x) (digest y)).0 s in
              rw q (get-push_self io y ∙ sym (ap some (h.0 q)))
          | inr n ↦
              get-push_ne io y (digest x) (λ q. cc (n, (digest_same_iff (digest x) (digest y)).1 q))
              ∙ e
        ])

  -- All of them can be read afterwards.
  pub get-push_many :
      (io : Io) (xs : List Bytes)
      → AllApart xs
      → All (λ x. file_storage_get (push_many io xs) (digest x) ≡ some x) xs
  get-push_many io [] h = tt
  get-push_many io (x ∷ xs) h = (
    get-push_many_keep (push io x) x xs h.0 (get-push_self io x),
    get-push_many (push io x) xs h.1,
  )
