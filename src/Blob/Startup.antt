-- ===== src/Blob/Startup.antt =====
-- `BlobStore::new` of src/blob.rs: the directories are made, and the temporary files that
-- interrupted uploads left are removed.
use telegraph_center.Base.{
  String, Bool, false, Option, none, some, List, [], ◌∷◌, ◌==◌, if◌then◌else◌,
}
use telegraph_center.Base.Fallible.{Fallible, ok, err}
use telegraph_center.Base.Split.{split}
use telegraph_center.Base.Text.{is_empty_text}
use telegraph_center.Blob.{BlobStore, join}
use telegraph_center.Blob.Files.{FileSystem}

-- The calls on directories. `read_dir` gives the names of the entries, and the error that the
-- listing ends in, if it does.
pub record Directories (S : Type 0) : Type 0 where
  pub create_dir_all : String → S → Fallible String (Unit {0}) × S
  pub read_dir : String → S → Fallible String (List String × Option String)

abbrev pub last_piece : String → List String → String
last_piece x [] = x
last_piece x (y ∷ ys) = last_piece y ys

-- `Path::extension` of a file name, by its pieces between the dots: what follows the last dot, where
-- something stands before it.
abbrev pub extension_of : List String → Option String
extension_of [] = none
extension_of (stem ∷ []) = none
extension_of (stem ∷ e ∷ []) = if is_empty_text stem then none else some e
extension_of (stem ∷ e ∷ d ∷ more) = some (last_piece d more)

abbrev pub is_part : Option String → Bool
is_part none = false
is_part (some e) = e == "part"

unfoldable pub is_stale : String → Bool
unfolding split
is_stale name = is_part (extension_of (split 46 name))

-- `?` between calls
abbrev pub and_then :
    {S A B : Type 0}
    → Fallible String A × S
    → (A → S → Fallible String B × S)
    → Fallible String B × S
and_then (err e, s) k = (err e, s)
and_then (ok a, s) k = k a s

abbrev pub ended : Option String → Fallible String (Unit {0})
ended none = ok tt
ended (some e) = err e

module _ (fs : FileSystem) (dirs : Directories fs.State) where
  unfoldable pub remove_stale : String → List String → fs.State → fs.State
  unfolding is_stale
  remove_stale dir [] s = s
  remove_stale dir (name ∷ names) s =
      remove_stale dir names (if is_stale name then (fs.remove_file (join dir name) s).1 else s)

  unfoldable pub clean_stale_temp : String → fs.State → Fallible String (Unit {0}) × fs.State
  unfolding remove_stale
  clean_stale_temp data_dir s =
      let tmp = join data_dir "tmp" in
      and_then (dirs.read_dir tmp s, s)
        λ listing s'. (ended listing.1, remove_stale tmp listing.0 s')

  unfoldable pub new : String → fs.State → Fallible String BlobStore × fs.State
  unfolding clean_stale_temp
  new data_dir s = and_then (dirs.create_dir_all (join data_dir "tmp") s) λ _ s1.
      and_then (dirs.create_dir_all (join data_dir "recordings") s1) λ _ s2.
        and_then (clean_stale_temp data_dir s2) λ _ s3. (ok (record { data_dir = data_dir }), s3)
