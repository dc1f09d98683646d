-- ===== src/Metadata/Entries.antt =====
-- src/metadata.ts: `findEntry` after the operations on the entries.
use migraguard.Prelude.{
  ◌≡◌, refl, ◌∙◌, Bool, true, false, not, Option, none, some, List, [], ◌∷◌, ◌++◌, map, find, keep,
  arith, if◌then◌else◌,
}
use migraguard.Prelude.Text.{Text, ◌==◌, eq_iff}
use migraguard.Metadata.{
  MigrationEntry, MetadataJson, find_entry, add_entry, remove_entry, update_entry, with_checksum,
}

-- The first that is there, or the second.
abbrev pub or_else : Option MigrationEntry → Option MigrationEntry → Option MigrationEntry
or_else none o = o
or_else (some e) o = some e

abbrev pub set_checksum : Text → Option MigrationEntry → Option MigrationEntry
set_checksum c none = none
set_checksum c (some e) = some (record e { checksum = c })

find-snoc :
    (es : List MigrationEntry) (e : MigrationEntry) (g : Text)
    → find (λ x. x.file == g) (es ++ e ∷ [])
      ≡ or_else (find (λ x. x.file == g) es) (if e.file == g then some e else none)
find-snoc [] e g = refl
find-snoc (x ∷ es) e g = ground (arith, find-snoc es e g)

find-removed :
    (es : List MigrationEntry) (f g : Text)
    → find (λ x. x.file == g) (keep (λ x. not (x.file == f)) es)
      ≡ (if f == g then none else find (λ x. x.file == g) es)
find-removed [] f g = ground arith
find-removed (x ∷ es) f g =
    ground (arith, find-removed es f g, eq_iff x.file f, eq_iff x.file g, eq_iff f g)

-- An entry whose checksum was set or not.
find-head :
    (b : Bool) (x : MigrationEntry) (c g : Text) (ys : List MigrationEntry)
    → find (λ y. y.file == g) ((if b then record x { checksum = c } else x) ∷ ys) ≡ (
        if x.file == g
        then (if b then some (record x { checksum = c }) else some x)
        else find (λ y. y.file == g) ys)
find-head true x c g ys = refl
find-head false x c g ys = refl

find-updated :
    (es : List MigrationEntry) (f c g : Text)
    → find (λ x. x.file == g) (map (with_checksum f c) es)
      ≡ (if f == g then set_checksum c (find (λ x. x.file == g) es) else find (λ x. x.file == g) es)
find-updated [] f c g = ground arith
find-updated (x ∷ es) f c g =
    find-head (x.file == f) x c g (map (with_checksum f c) es)
    ∙ ground (arith, find-updated es f c g, eq_iff x.file f, eq_iff x.file g, eq_iff f g)

-- `findEntry` finds an entry that was added behind those that were there, none of a file that was removed,
-- and the new checksum in that of a file that was updated; for other files it finds what it found before.
find_entry_laws :
    (m : MetadataJson) (e : MigrationEntry) (f g c : Text)
    → (find_entry (add_entry m e) g
        ≡ or_else (find_entry m g) (if e.file == g then some e else none))
      × (find_entry (remove_entry m f) g ≡ (if f == g then none else find_entry m g))
      × (find_entry (update_entry m f c) g
          ≡ (if f == g then set_checksum c (find_entry m g) else find_entry m g))
unfolding find_entry add_entry remove_entry update_entry
find_entry_laws m e f g c =
    (find-snoc m.migrations e g, find-removed m.migrations f g, find-updated m.migrations f c g)
