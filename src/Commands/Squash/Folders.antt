-- ===== src/Commands/Squash/Folders.antt =====
-- src/commands/squash.ts: reading, writing and removing files in a folder.
use migraguard.Prelude.{
  false, not, none, some, List, [], ◌∷◌, map, keep, All, ◌≡◌, refl, ap, ◌∙◌, if◌then◌else◌, arith,
}
use migraguard.Prelude.Text.{Text, ◌==◌, eq_iff}
use migraguard.Prelude.Maps.{has, lookup, insert, Distinct, lookup-insert}
use migraguard.Scanner.{MigrationFile}
use migraguard.Commands.Squash.{Folder, unlink, read_contents, source_text, remove_files}

abbrev pub paths : List MigrationFile → List Text
paths fs = map (λ f. f.file_path) fs

lookup-removed :
    (asked gone : Text) (folder : Folder)
    → lookup asked (keep (λ e. not (e.0 == gone)) folder)
      ≡ (if gone == asked then none else lookup asked folder)
unfolding lookup
lookup-removed asked gone [] = ground arith
lookup-removed asked gone (e ∷ folder) =
    ground (
      arith,
      lookup-removed asked gone folder,
      eq_iff e.0 asked,
      eq_iff e.0 gone,
      eq_iff gone asked,
    )

remove_files-found :
    (f : MigrationFile) (fs : List MigrationFile) (folder : Folder) (t : Text)
    → lookup f.file_path folder ≡ some t
    → remove_files (f ∷ fs) folder ≡ remove_files fs (keep (λ e. not (e.0 == f.file_path)) folder)
unfolding remove_files unlink
remove_files-found f fs folder t h = ground (arith, h)

module _ (text_of : MigrationFile → Text) where
  -- The folder has the files, with the texts of `text_of`.
  abbrev pub HasTexts : Folder → List MigrationFile → Type 0
  HasTexts folder fs = All (λ f. lookup f.file_path folder ≡ some (text_of f)) fs

  pub read_contents-HasTexts :
      (folder : Folder) (fs : List MigrationFile)
      → HasTexts folder fs
      → read_contents fs folder ≡ some (map (λ f. source_text f (text_of f)) fs)
  unfolding read_contents
  read_contents-HasTexts folder [] h = refl
  read_contents-HasTexts folder (f ∷ fs) h =
      ground (arith, h.0, read_contents-HasTexts folder fs h.1)

  pub HasTexts-insert :
      (folder : Folder) (path text : Text) (fs : List MigrationFile)
      → has (paths fs) path ≡ false
      → HasTexts folder fs
      → HasTexts (insert path text folder) fs
  unfolding has
  HasTexts-insert folder path text [] out h = tt
  HasTexts-insert folder path text (f ∷ fs) out h = (
    ground (
      arith,
      lookup-insert path f.file_path text folder,
      eq_iff f.file_path path,
      eq_iff path f.file_path,
      out,
      h.0,
    ),
    HasTexts-insert folder path text fs (ground (arith, out)) h.1,
  )

  HasTexts-removed :
      (folder : Folder) (gone : Text) (fs : List MigrationFile)
      → has (paths fs) gone ≡ false
      → HasTexts folder fs
      → HasTexts (keep (λ e. not (e.0 == gone)) folder) fs
  unfolding has
  HasTexts-removed folder gone [] out h = tt
  HasTexts-removed folder gone (f ∷ fs) out h = (
    ground (
      arith,
      lookup-removed f.file_path gone folder,
      eq_iff f.file_path gone,
      eq_iff gone f.file_path,
      out,
      h.0,
    ),
    HasTexts-removed folder gone fs (ground (arith, out)) h.1,
  )

  -- Files with different paths that are there are removed, and no others.
  pub remove_files-HasTexts :
      (fs : List MigrationFile) (folder : Folder)
      → Distinct (paths fs)
      → HasTexts folder fs
      → ((remove_files fs folder).1 ≡ false)
        × ((p : Text)
            → lookup p (remove_files fs folder).0
              ≡ (if has (paths fs) p then none else lookup p folder))
  unfolding remove_files has
  remove_files-HasTexts [] folder d h = (refl, λ p. refl)
  remove_files-HasTexts (f ∷ fs) folder d h =
      let left = keep (λ e. not (e.0 == f.file_path)) folder in
      let rest =
        remove_files-HasTexts fs left d.1 (HasTexts-removed folder f.file_path fs d.0 h.1) in
      let step = remove_files-found f fs folder (text_of f) h.0 in
      (
        ap (λ r. r.1) step ∙ rest.0,
        λ p.
            ap (λ r. lookup p r.0) step
            ∙ rest.1 p
            ∙ ground (arith, lookup-removed p f.file_path folder),
      )
