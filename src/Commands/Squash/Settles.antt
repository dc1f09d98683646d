-- ===== src/Commands/Squash/Settles.antt =====
-- src/commands/squash.ts: what squashing a group leaves on disk.
use migraguard.Prelude.{
  ◌++◌, sym, Option, Bool, true, false, none, some, List, [], ◌∷◌, map, All, ◌>>=◌, ◌≡◌, refl, ap,
  ◌∙◌, if◌then◌else◌, arith,
}
use migraguard.Prelude.Text.{codes, Text, ◌==◌, eq_iff}
use migraguard.Prelude.Maps.{has, lookup, insert, Distinct, lookup-insert}
use migraguard.Checksum.Scan.{normalize_sql_total}
use migraguard.Scanner.{MigrationFile}
use migraguard.Metadata.{MetadataJson, add_entry}
use migraguard.Commands.Squash.{
  Folder, SquashEnv, read_contents, source_text, remove_files, build_squashed_file_name,
  checksum_string, insert_by_key, sorted_by_key, merge_contents, join_texts, squashed_path,
  after_removal, squash_sorted, squash_group,
}
use migraguard.Commands.Squash.Folders.{
  paths, HasTexts, read_contents-HasTexts, HasTexts-insert, remove_files-HasTexts,
}

-- sha256 of the normal form, which every text has.
checksum_string_total :
    (sha256 : Text → Text) (s : Text) → (c : Text) × (checksum_string sha256 s ≡ some c)
unfolding checksum_string
checksum_string_total sha256 s =
    let normal = normalize_sql_total s in
    (sha256 normal.0, ap (λ o. o >>= (λ n. some (sha256 n))) normal.1)

All-if_either :
    (P : MigrationFile → Type 0) (b : Bool) (xs ys : List MigrationFile)
    → All P xs
    → All P ys
    → All P (if b then xs else ys)
All-if_either P true xs ys h k = h
All-if_either P false xs ys h k = k

abbrev section : (MigrationFile → Text) → MigrationFile → Text
section text_of f = codes "-- Source: " ++ (f.file_name ++ (10 ∷ text_of f))

-- The texts of the files, each below a line that names the file, with an empty line between.
abbrev pub sections : (MigrationFile → Text) → List MigrationFile → Text
sections text_of [] = []
sections text_of (f ∷ []) = section text_of f
sections text_of (f ∷ g ∷ fs) = section text_of f ++ (10 ∷ 10 ∷ sections text_of (g ∷ fs))

module _ (env : SquashEnv) where
  has-insert_by_key :
      (f : MigrationFile) (fs : List MigrationFile) (p : Text)
      → has (paths (insert_by_key env f fs)) p ≡ has (paths (f ∷ fs)) p
  unfolding has insert_by_key
  has-insert_by_key f [] p = refl
  has-insert_by_key f (g ∷ gs) p = ground (arith, has-insert_by_key f gs p)

  has-sorted_by_key :
      (fs : List MigrationFile) (p : Text) → has (paths (sorted_by_key env fs)) p ≡ has (paths fs) p
  unfolding has sorted_by_key
  has-sorted_by_key [] p = refl
  has-sorted_by_key (f ∷ fs) p =
      ground (arith, has-insert_by_key f (sorted_by_key env fs) p, has-sorted_by_key fs p)

  Distinct-insert_by_key :
      (f : MigrationFile) (fs : List MigrationFile)
      → Distinct (paths (f ∷ fs))
      → Distinct (paths (insert_by_key env f fs))
  unfolding has insert_by_key
  Distinct-insert_by_key f [] d = d
  Distinct-insert_by_key f (g ∷ gs) d = ground (
    arith,
    d.0,
    d.1,
    Distinct-insert_by_key f gs,
    has-insert_by_key f gs g.file_path,
    eq_iff f.file_path g.file_path,
    eq_iff g.file_path f.file_path,
  )

  Distinct-sorted_by_key :
      (fs : List MigrationFile) → Distinct (paths fs) → Distinct (paths (sorted_by_key env fs))
  unfolding sorted_by_key
  Distinct-sorted_by_key [] d = d
  Distinct-sorted_by_key (f ∷ fs) d =
      Distinct-insert_by_key f (sorted_by_key env fs)
        (has-sorted_by_key fs f.file_path ∙ d.0, Distinct-sorted_by_key fs d.1)

  All-insert_by_key :
      (P : MigrationFile → Type 0) (f : MigrationFile) (fs : List MigrationFile)
      → P f
      → All P fs
      → All P (insert_by_key env f fs)
  unfolding insert_by_key
  All-insert_by_key P f [] h hs = (h, hs)
  All-insert_by_key P f (g ∷ gs) h hs =
      All-if_either P (env.locale_lt g.parsed.sort_key f.parsed.sort_key) _ _
        (hs.0, All-insert_by_key P f gs h hs.1) (h, hs)

  All-sorted_by_key :
      (P : MigrationFile → Type 0) (fs : List MigrationFile)
      → All P fs
      → All P (sorted_by_key env fs)
  unfolding sorted_by_key
  All-sorted_by_key P [] h = h
  All-sorted_by_key P (f ∷ fs) h =
      All-insert_by_key P f (sorted_by_key env fs) h.0 (All-sorted_by_key P fs h.1)

  -- What the squashed file has to hold: the files in the order of their sort keys.
  abbrev pub merged_text : (MigrationFile → Text) → List MigrationFile → Text
  merged_text text_of group = sections text_of (sorted_by_key env group)

  merge_contents-sections :
      (text_of : MigrationFile → Text) (fs : List MigrationFile)
      → merge_contents env (map (λ f. source_text f (text_of f)) fs) ≡ sections text_of fs
  unfolding merge_contents join_texts source_text
  merge_contents-sections text_of [] = refl
  merge_contents-sections text_of (f ∷ []) = refl
  merge_contents-sections text_of (f ∷ g ∷ fs) =
      ap (λ t. section text_of f ++ (10 ∷ 10 ∷ t)) (merge_contents-sections text_of (g ∷ fs))

  squashed_after :
      (sorted : List MigrationFile) (contents : List Text) (name c : Text) (m : MetadataJson)
      (folder : Folder)
      → read_contents sorted folder ≡ some contents
      → build_squashed_file_name sorted ≡ some name
      → checksum_string env.sha256 (merge_contents env contents) ≡ some c
      → (remove_files sorted
          (insert (squashed_path env name) (merge_contents env contents) folder)).1
        ≡ false
      → squash_sorted env sorted
          (read_contents sorted folder)
          (build_squashed_file_name sorted)
          m
          folder
        ≡ record {
          folder =
              (remove_files sorted
                (insert (squashed_path env name) (merge_contents env contents) folder)).0;
          metadata =
              add_entry m
                (record { file = name; checksum = c; migration_class = none; group_name = none });
          threw = false;
        }
  squashed_after sorted contents name c m folder r b k d =
      let removed =
        remove_files sorted
          (insert (squashed_path env name) (merge_contents env contents) folder) in
      ap (λ o. squash_sorted env sorted o (build_squashed_file_name sorted) m folder) r
      ∙ ap (λ o. squash_sorted env sorted (some contents) o m folder) b
      ∙ ap (λ o. after_removal env removed o name m) k
      ∙ ap (λ t. after_removal env (removed.0, t) (some c) name m) d

  -- For files of different paths that are on disk with some texts, none of them at the path of the
  -- squashed file: squashing them throws nothing, adds one entry to the metadata, of the squashed file
  -- with the checksum of the merged text, and leaves the merged text, of the files in the order of their
  -- sort keys, at its path, nothing at theirs, and the rest of the disk as it was.
  pub squash_group_settles :
      (text_of : MigrationFile → Text) (group : List MigrationFile) (m : MetadataJson)
      (folder : Folder) (name asked : Text)
      → HasTexts text_of folder group
      → Distinct (paths group)
      → build_squashed_file_name (sorted_by_key env group) ≡ some name
      → has (paths group) (squashed_path env name) ≡ false
      → let after = squash_group env group m folder in
        (after.threw ≡ false)
        × ((c : Text) × (checksum_string env.sha256 (merged_text text_of group) ≡ some c)
            × (after.metadata
                ≡ add_entry m (record {
                  file = name;
                  checksum = c;
                  migration_class = none;
                  group_name = none;
                })))
        × (lookup asked after.folder ≡ (
            if has (paths group) asked
            then none
            else if squashed_path env name == asked
            then some (merged_text text_of group)
            else lookup asked folder))
  unfolding squash_group
  squash_group_settles text_of group m folder name asked h d b out =
      let sorted = sorted_by_key env group in
      let there = All-sorted_by_key (λ f. lookup f.file_path folder ≡ some (text_of f)) group h in
      let contents = map (λ f. source_text f (text_of f)) sorted in
      let path = squashed_path env name in
      let written = insert path (merge_contents env contents) folder in
      let gone = remove_files-HasTexts text_of sorted written (Distinct-sorted_by_key group d) (
        HasTexts-insert text_of folder path (merge_contents env contents) sorted
          (has-sorted_by_key group path ∙ out) there) in
      let digest = checksum_string_total env.sha256 (merge_contents env contents) in
      let same = merge_contents-sections text_of sorted in
      let left : Text → Option Text = λ t.
        if has (paths group) asked
        then none
        else if path == asked
        then some t
        else lookup asked folder in
      let kept : (if has (paths sorted) asked then none else lookup asked written)
          ≡ left (merge_contents env contents) =
        ground (
          arith,
          has-sorted_by_key group asked,
          lookup-insert path asked (merge_contents env contents) folder,
        ) in
      let after =
        squashed_after sorted contents name digest.0 m folder
          (read_contents-HasTexts text_of folder sorted there) b digest.1 gone.0 in
      (
        ap (λ s. s.threw) after,
        (
          digest.0,
          ap (checksum_string env.sha256) (sym same) ∙ digest.1,
          ap (λ s. s.metadata) after,
        ),
        ap (λ s. lookup asked s.folder) after ∙ gone.1 asked ∙ kept ∙ ap left same,
      )
