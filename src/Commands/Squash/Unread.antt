-- ===== src/Commands/Squash/Unread.antt =====
-- src/commands/squash.ts: a group with a file that cannot be read.
use mathlib.Core.List.{Memᴰ}
use mathlib.Core.List.Memᴰ.{head, tail, not-nil}
use migraguard.Prelude.{
  ◌≡◌, sym, ap, ◌∙◌, Bool, true, false, none, List, [], ◌∷◌, if◌then◌else◌, arith, Option-cases,
}
use migraguard.Prelude.Maps.{lookup}
use migraguard.Scanner.{MigrationFile}
use migraguard.Metadata.{MetadataJson}
use migraguard.Commands.Squash.{
  Folder, SquashEnv, read_contents, insert_by_key, sorted_by_key, build_squashed_file_name,
  squash_sorted, squash_group,
}

Memᴰ-if :
    (x : MigrationFile) (b : Bool) (xs ys : List MigrationFile)
    → Memᴰ x xs
    → Memᴰ x ys
    → Memᴰ x (if b then xs else ys)
Memᴰ-if x true xs ys h k = h
Memᴰ-if x false xs ys h k = k

read_contents-head :
    (f : MigrationFile) (fs : List MigrationFile) (folder : Folder)
    → lookup f.file_path folder ≡ none
    → read_contents (f ∷ fs) folder ≡ none
unfolding read_contents
read_contents-head f fs folder h = ground (arith, h)

read_contents-tail :
    (f : MigrationFile) (fs : List MigrationFile) (folder : Folder)
    → read_contents fs folder ≡ none
    → read_contents (f ∷ fs) folder ≡ none
unfolding read_contents
read_contents-tail f fs folder h = ground (arith, h, Option-cases (lookup f.file_path folder))

read_contents-missing :
    (fs : List MigrationFile) (f : MigrationFile) (folder : Folder)
    → Memᴰ f fs
    → lookup f.file_path folder ≡ none
    → read_contents fs folder ≡ none
read_contents-missing [] f folder m h = absurd (not-nil m)
read_contents-missing (g ∷ fs) f folder m h = elim m [
  | head e ↦ read_contents-head g fs folder (ap (λ x. lookup x.file_path folder) (sym e) ∙ h)
  | tail k ↦ read_contents-tail g fs folder (read_contents-missing fs f folder k h)
]

module _ (env : SquashEnv) where
  Memᴰ-insert_by_key :
      (x f : MigrationFile) (fs : List MigrationFile)
      → Memᴰ x (f ∷ fs)
      → Memᴰ x (insert_by_key env f fs)
  unfolding insert_by_key
  Memᴰ-insert_by_key x f [] m = m
  Memᴰ-insert_by_key x f (g ∷ gs) m =
      Memᴰ-if x (env.locale_lt g.parsed.sort_key f.parsed.sort_key) _ _
        (elim m [
          | head e ↦ tail (Memᴰ-insert_by_key x f gs (head e))
          | tail k ↦ elim k [ head e ↦ head e | tail j ↦ tail (Memᴰ-insert_by_key x f gs (tail j)) ]
        ])
        m

  Memᴰ-sorted_by_key :
      (x : MigrationFile) (fs : List MigrationFile) → Memᴰ x fs → Memᴰ x (sorted_by_key env fs)
  unfolding sorted_by_key
  Memᴰ-sorted_by_key x [] m = m
  Memᴰ-sorted_by_key x (f ∷ fs) m =
      Memᴰ-insert_by_key x f (sorted_by_key env fs)
        (elim m [ head e ↦ head e | tail k ↦ tail (Memᴰ-sorted_by_key x fs k) ])

  -- If any file of a group is not on disk, squashing the group throws before it writes or removes a
  -- file: the disk is as it was, with the files of the group that are there, and so are the metadata.
  pub squash_group_unread :
      (group : List MigrationFile) (f : MigrationFile) (m : MetadataJson) (folder : Folder)
      → Memᴰ f group
      → lookup f.file_path folder ≡ none
      → squash_group env group m folder ≡ record { folder = folder; metadata = m; threw = true }
  unfolding squash_group
  squash_group_unread group f m folder there h =
      let sorted = sorted_by_key env group in
      ap (λ o. squash_sorted env sorted o (build_squashed_file_name sorted) m folder)
        (read_contents-missing sorted f folder (Memᴰ-sorted_by_key f group there) h)
