-- ===== src/Blob/Swept.antt =====
-- src/blob.rs: what the making of the store leaves of the temporary directory.
use Prim.Native.Char.{char, code}
use Prim.Native.String as Text
use Prim.Native.String.append
use Prim.Native.String.{◌++◌ as ◌<>◌}
use text.Mathlib.TextLemmas.{append_assoc}
use telegraph_center.Base.{
  ℕ, String, ◌≡◌, refl, sym, ◌∙◌, ap, subst, true, false, Option, none, some, List, [], ◌∷◌, ◌==◌,
  ◌++◌, eq_refl, eq_iff, arith, nat_beq, All, if◌then◌else◌, Bool-cases, inl, inr,
}
use telegraph_center.Base.Fallible.{Fallible, ok, err}
use telegraph_center.Base.Split.{split}
use telegraph_center.Base.Table.{exists_row}
use telegraph_center.Base.Text.{is_empty_text}
use telegraph_center.Blob.{BlobStore, join, temp_path}
use telegraph_center.Blob.Files.{FileSystem, IsLawful, IsRemovable, remove_file_lem}
use telegraph_center.Blob.Startup.{
  Directories, last_piece, extension_of, is_part, is_stale, and_then, remove_stale, ended,
  clean_stale_temp, new,
}

-- The pieces of a text, of which there is at least one.
split_cons : (at : ℕ) (s : String) → (x : String) × (xs : List String) × (split at s ≡ x ∷ xs)
unfolding split
split_cons at Text.[] = ("", [], refl)
split_cons at (Text.◌∷◌ c s) = elim (Bool-cases (nat_beq (code c) at)) [
  | inl here ↦ ("", split at s, rw here refl)
  | inr other ↦ let (x, xs, e) = split_cons at s in (Text.◌∷◌ c x, xs, rw (other, e) refl)
]

split_part : (s : String) → split 46 (s <> ".part") ≡ split 46 s ++ "part" ∷ []
unfolding split
split_part Text.[] = refl
split_part (Text.◌∷◌ c s) =
    let (x, xs, e) = split_cons 46 s in
    rw (append.cons c s ".part", split_part s)
      (elim (Bool-cases (nat_beq (code c) 46)) [
        | inl here ↦ rw here refl
        | inr other ↦ rw (other, e) refl
      ])

last_piece_end : (x : String) (xs : List String) → last_piece x (xs ++ "part" ∷ []) ≡ "part"
last_piece_end x [] = refl
last_piece_end x (y ∷ ys) = last_piece_end y ys

extension_of_part :
    (x : String) (xs : List String)
    → is_empty_text x ≡ false
    → extension_of (x ∷ xs ++ "part" ∷ []) ≡ some "part"
extension_of_part x [] h = rw h refl
extension_of_part x (y ∷ []) h = refl
extension_of_part x (y ∷ z ∷ zs) h = ap some (last_piece_end z zs)

-- The name of a temporary file is stale, whatever the id.
temp_name_stale : (id : String) → is_stale ("upload-" <> id <> ".part") ≡ true
unfolding is_stale split
temp_name_stale id =
    let (x, xs, e) = split_cons 46 ("pload-" <> id) in
    let u = Text.◌∷◌ (char 117 tt) in
    let named : "upload-" <> id ≡ u ("pload-" <> id) = append.cons (char 117 tt) "pload-" id in
    let pieces : split 46 ("upload-" <> id) ≡ u x ∷ xs = ap (split 46) named ∙ first x xs e in
    ap (λ l. is_part (extension_of l))
      (ap (split 46) (sym (append_assoc "upload-" id ".part"))
        ∙ split_part ("upload-" <> id)
        ∙ ap (λ l. l ++ "part" ∷ []) pieces)
    ∙ ap is_part (extension_of_part (u x) xs refl)
  where
    first :
        (x : String) (xs : List String)
        → split 46 ("pload-" <> id) ≡ x ∷ xs
        → split 46 (Text.◌∷◌ (char 117 tt) ("pload-" <> id)) ≡ Text.◌∷◌ (char 117 tt) x ∷ xs
    first x xs e = rw e refl

All-at :
    (P : String → Type 0) (a : String) (xs : List String)
    → All P xs
    → exists_row (λ x. x == a) xs ≡ true
    → P a
unfolding exists_row
All-at P a [] h e = cc
All-at P a (x ∷ xs) (p, h) e = elim (Bool-cases (x == a)) [
  | inl same ↦ subst P ((eq_iff x a).0 same) p
  | inr other ↦ All-at P a xs h (ground (arith, e, other))
]

and_then_inverts :
    {S A B : Type 0} (q : Fallible String A × S) (k : A → S → Fallible String B × S) (b : B)
    → (and_then q k).0 ≡ ok b
    → (a : A) × (q.0 ≡ ok a) × (and_then q k ≡ k a q.1)
and_then_inverts (err e, s) k b h = cc
and_then_inverts (ok a, s) k b h = (a, refl, refl)

module _ (fs : FileSystem) (dirs : Directories fs.State) where
  -- Making a directory touches no file.
  abbrev pub IsQuiet : Type 0
  IsQuiet =
      (p q : String) (s : fs.State) → fs.contents q (dirs.create_dir_all p s).1 ≡ fs.contents q s

  -- The files after the directories are made.
  abbrev pub made : String → fs.State → fs.State
  made data_dir s =
      (dirs.create_dir_all (join data_dir "recordings")
        (dirs.create_dir_all (join data_dir "tmp") s).1).1

  -- Of the names listed for a directory, the stale ones have no file any more, and any other file is
  -- as it was.
  pub record IsSwept (dir : String) (names : List String) (s s' : fs.State) : Type 0 where
    pub gone : All (λ name. is_stale name ≡ true → fs.contents (join dir name) s' ≡ none) names
    pub kept :
        (q : String)
        → All (λ name. is_stale name ≡ true → (q == join dir name) ≡ false) names
        → fs.contents q s' ≡ fs.contents q s

  module _ (lawful : IsLawful fs) (removable : IsRemovable fs) where
    stays_gone :
        (dir q : String) (names : List String) (s : fs.State)
        → fs.contents q s ≡ none
        → fs.contents q (remove_stale fs dirs dir names s) ≡ none
    unfolding remove_stale
    stays_gone dir q [] s h = h
    stays_gone dir q (name ∷ names) s h = elim (Bool-cases (is_stale name)) [
      | inl stale ↦ rw stale (
          stays_gone dir q names _
            (remove_file_lem fs lawful removable (join dir name) q s ∙ still))
      | inr other ↦ rw other (stays_gone dir q names s h)
    ]
      where
        still : (if q == join dir name then none else fs.contents q s) ≡ none
        still = elim (Bool-cases (q == join dir name)) [ inl e ↦ rw e refl | inr e ↦ rw e h ]

    remove_stale-gone :
        (dir : String) (names : List String) (s : fs.State)
        → All
            (λ name.
              is_stale name ≡ true
              → fs.contents (join dir name) (remove_stale fs dirs dir names s) ≡ none)
            names
    unfolding remove_stale
    remove_stale-gone dir [] s = tt
    remove_stale-gone dir (name ∷ names) s = (
      λ stale. rw stale (
          stays_gone dir (join dir name) names _ (
            remove_file_lem fs lawful removable (join dir name) (join dir name) s
            ∙ rw (eq_refl (join dir name)) refl)),
      remove_stale-gone dir names _,
    )

    remove_stale-kept :
        (dir q : String) (names : List String) (s : fs.State)
        → All (λ name. is_stale name ≡ true → (q == join dir name) ≡ false) names
        → fs.contents q (remove_stale fs dirs dir names s) ≡ fs.contents q s
    unfolding remove_stale
    remove_stale-kept dir q [] s h = refl
    remove_stale-kept dir q (name ∷ names) s (here, h) = elim (Bool-cases (is_stale name)) [
      | inl stale ↦ rw stale (
          remove_stale-kept dir q names _ h
          ∙ remove_file_lem fs lawful removable (join dir name) q s
          ∙ rw (here stale) refl)
      | inr other ↦ rw other (remove_stale-kept dir q names s h)
    ]

    clean_ok :
        (data_dir : String) (s : fs.State)
        → (clean_stale_temp fs dirs data_dir s).0 ≡ ok tt
        → (names : List String) × (dirs.read_dir (join data_dir "tmp") s ≡ ok (names, none))
          × IsSwept (join data_dir "tmp") names s (clean_stale_temp fs dirs data_dir s).1
    unfolding clean_stale_temp
    clean_ok data_dir s = go (dirs.read_dir (join data_dir "tmp") s) refl
      where
        tmp : String
        tmp = join data_dir "tmp"

        result :
            Fallible String (List String × Option String) → Fallible String (Unit {0}) × fs.State
        result r =
            and_then (r, s) λ listing s'. (ended listing.1, remove_stale fs dirs tmp listing.0 s')

        go :
            (r : Fallible String (List String × Option String))
            → dirs.read_dir tmp s ≡ r
            → (result r).0 ≡ ok tt
            → (names : List String) × (r ≡ ok (names, none)) × IsSwept tmp names s (result r).1
        go (err e) h k = cc
        go (ok (names, some e)) h k = cc
        go (ok (names, none)) h k = (
          names,
          refl,
          record {
            gone = remove_stale-gone tmp names s;
            kept = λ q o. remove_stale-kept tmp q names s o;
          },
        )

    -- Where the store is made, the stale files that were listed are gone, and any other file is as
    -- it was.
    new_ok :
        (data_dir : String) (s : fs.State) (blobs : BlobStore)
        → IsQuiet
        → (new fs dirs data_dir s).0 ≡ ok blobs
        → (blobs.data_dir ≡ data_dir)
          × (names : List String) × (dirs.read_dir (join data_dir "tmp") (made data_dir s)
              ≡ ok (names, none))
          × IsSwept (join data_dir "tmp") names s (new fs dirs data_dir s).1
    unfolding new
    new_ok data_dir s blobs quiet h =
        let s1 = (dirs.create_dir_all (join data_dir "tmp") s).1 in
        let s2 = (dirs.create_dir_all (join data_dir "recordings") s1).1 in
        let (_, _, e1) = and_then_inverts (dirs.create_dir_all (join data_dir "tmp") s) _ blobs h in
        let (_, _, e2) =
          and_then_inverts (dirs.create_dir_all (join data_dir "recordings") s1) _ blobs
            (sym (ap (λ q. q.0) e1) ∙ h) in
        let (_, cleaned, e3) =
          and_then_inverts (clean_stale_temp fs dirs data_dir s2) _ blobs
            (sym (ap (λ q. q.0) (e1 ∙ e2)) ∙ h) in
        let whole = e1 ∙ e2 ∙ e3 in
        let (names, listing, swept) = clean_ok data_dir s2 cleaned in
        let same = λ (q : String).
          quiet (join data_dir "recordings") q s1 ∙ quiet (join data_dir "tmp") q s in
        let store : ok (record { data_dir = data_dir }) ≡ ok blobs =
          sym (ap (λ q. q.0) whole) ∙ h in
        (
          sym (ground (arith, store)),
          names,
          listing,
          subst (λ q. IsSwept (join data_dir "tmp") names s q.1) (sym whole)
              (record { gone = swept.gone; kept = λ q o. swept.kept q o ∙ same q }),
        )

    -- When the service has made its store, no file is left of an interrupted upload whose temporary
    -- file was listed, whatever its id, and every file that is not a listed `.part` file of the
    -- temporary directory is as it was. The file system does what its documentation says, nothing
    -- keeps a file from being removed, and the making of a directory touches no file.
    pub new-IsSwept :
        IsQuiet
        → (data_dir : String) (s : fs.State) (blobs : BlobStore)
        → (new fs dirs data_dir s).0 ≡ ok blobs
        → (names : List String) × (dirs.read_dir (join data_dir "tmp") (made data_dir s)
            ≡ ok (names, none))
          × IsSwept (join data_dir "tmp") names s (new fs dirs data_dir s).1
          × ((id : String)
              → exists_row (λ n. n == ("upload-" <> id <> ".part")) names ≡ true
              → fs.contents (temp_path blobs id) (new fs dirs data_dir s).1 ≡ none)
    unfolding temp_path
    new-IsSwept quiet data_dir s blobs h =
        let (place, names, listing, swept) = new_ok data_dir s blobs quiet h in
        (
          names,
          listing,
          swept,
          λ id there.
              ap
                (λ d.
                  fs.contents (join (join d "tmp") ("upload-" <> id <> ".part"))
                    (new fs dirs data_dir s).1)
                place
              ∙ All-at
                  (λ n.
                    is_stale n ≡ true
                    → fs.contents (join (join data_dir "tmp") n) (new fs dirs data_dir s).1 ≡ none)
                  ("upload-" <> id <> ".part") names swept.gone there (temp_name_stale id),
        )
