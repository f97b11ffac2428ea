-- ===== src/Blob/Files.antt =====
-- The files under the data directory of src/blob.rs. The file system is an interface: the calls of
-- `tokio::fs` that the service makes, and what their documentation says of them.
use telegraph_center.Base.{
  ℕ, String, ◌≡◌, false, Option, none, some, List, [], ◌++◌, length, ◌==◌, if◌then◌else◌, refl, ap,
  ◌∙◌, ◌⊎◌, inl, inr, Bool-cases, eq_iff,
}
use telegraph_center.Base.Fallible.{Fallible, ok, err}
use telegraph_center.Blob.{BlobStore, full_path}

-- A call that fails gives the text of its `io::Error`. `contents` is what a file holds once the
-- writes to it are flushed, and nothing where there is no file.
pub record FileSystem : Type 1 where
  pub State : Type 0
  pub contents : String → State → Option (List ℕ)
  pub create : String → State → Fallible String (Unit {0}) × State
  pub write_all : String → List ℕ → State → Fallible String (Unit {0}) × State
  pub flush : String → State → Fallible String (Unit {0}) × State
  pub read : String → State → Fallible String (List ℕ)
  -- the length that `metadata` tells
  pub metadata : String → State → Fallible String ℕ
  pub rename : String → String → State → Fallible String (Unit {0}) × State
  pub remove_file : String → State → Fallible String (Unit {0}) × State

-- What the documentation of the calls says. A call touches the files that it names only, and one
-- that fails may still have touched the file that it writes to.
pub record IsLawful (fs : FileSystem) : Type 0 where
  pub create_ok :
      (p : String) (s : fs.State)
      → (fs.create p s).0 ≡ ok tt
      → fs.contents p (fs.create p s).1 ≡ some []
  pub create_other :
      (p q : String) (s : fs.State)
      → (q == p) ≡ false
      → fs.contents q (fs.create p s).1 ≡ fs.contents q s
  pub write_ok :
      (p : String) (bytes old : List ℕ) (s : fs.State)
      → (fs.write_all p bytes s).0 ≡ ok tt
      → fs.contents p s ≡ some old
      → fs.contents p (fs.write_all p bytes s).1 ≡ some (old ++ bytes)
  pub write_other :
      (p q : String) (bytes : List ℕ) (s : fs.State)
      → (q == p) ≡ false
      → fs.contents q (fs.write_all p bytes s).1 ≡ fs.contents q s
  pub flush_same : (p q : String) (s : fs.State) → fs.contents q (fs.flush p s).1 ≡ fs.contents q s
  pub metadata_len :
      (p : String) (n : ℕ) (bytes : List ℕ) (s : fs.State)
      → fs.metadata p s ≡ ok n
      → fs.contents p s ≡ some bytes
      → n ≡ length bytes
  pub rename_ok :
      (from to q : String) (s : fs.State)
      → (fs.rename from to s).0 ≡ ok tt
      → fs.contents q (fs.rename from to s).1
        ≡ (if q == to then fs.contents from s else if q == from then none else fs.contents q s)
  pub rename_failed :
      (from to q e : String) (s : fs.State)
      → (fs.rename from to s).0 ≡ err e
      → fs.contents q (fs.rename from to s).1 ≡ fs.contents q s
  pub remove_ok :
      (p q : String) (s : fs.State)
      → (fs.remove_file p s).0 ≡ ok tt
      → fs.contents q (fs.remove_file p s).1 ≡ (if q == p then none else fs.contents q s)
  pub remove_failed :
      (p q e : String) (s : fs.State)
      → (fs.remove_file p s).0 ≡ err e
      → fs.contents q (fs.remove_file p s).1 ≡ fs.contents q s

-- Nothing keeps a file that is there from being removed, such as a lack of permission would.
pub record IsRemovable (fs : FileSystem) : Type 0 where
  pub removal :
      (p : String) (s : fs.State) → (fs.contents p s ≡ none) ⊎ ((fs.remove_file p s).0 ≡ ok tt)

module _ (fs : FileSystem) (lawful : IsLawful fs) (removable : IsRemovable fs) where
  -- After the attempt to remove a file there is none, and the others are the same.
  pub remove_file_lem :
      (p q : String) (s : fs.State)
      → fs.contents q (fs.remove_file p s).1 ≡ (if q == p then none else fs.contents q s)
  remove_file_lem p q s =
      go (fs.remove_file p s).0 (fs.remove_file p s).1 (λ e. lawful.remove_ok p q s e)
        (λ c e. lawful.remove_failed p q c s e) (removable.removal p s)
    where
      go :
          (r : Fallible String (Unit {0})) (s' : fs.State)
          → (r ≡ ok tt → fs.contents q s' ≡ (if q == p then none else fs.contents q s))
          → ((c : String) → r ≡ err c → fs.contents q s' ≡ fs.contents q s)
          → (fs.contents p s ≡ none) ⊎ (r ≡ ok tt)
          → fs.contents q s' ≡ (if q == p then none else fs.contents q s)
      go r s' done failed (inr e) = done e
      go (ok tt) s' done failed (inl absent) = done refl
      go (err c) s' done failed (inl absent) = failed c refl ∙ elim (Bool-cases (q == p)) [
        | inl e ↦ rw e (ap (λ x. fs.contents x s) ((eq_iff q p).0 e) ∙ absent)
        | inr ne ↦ rw ne refl
      ]

module _ (fs : FileSystem) where
  unfoldable pub finalize :
      BlobStore → String → String → fs.State → Fallible String (Unit {0}) × fs.State
  finalize blobs temp relative s = fs.rename temp (full_path blobs relative) s

  -- The result of a removal is dropped.
  unfoldable pub remove_temp : String → fs.State → fs.State
  remove_temp temp s = (fs.remove_file temp s).1

  unfoldable pub remove_blob : BlobStore → String → fs.State → fs.State
  remove_blob blobs relative s = (fs.remove_file (full_path blobs relative) s).1
