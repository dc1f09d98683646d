-- ===== src/Commands/Check/Groups.antt =====
-- src/commands/check.ts: the map of the groups and their phases.
use migraguard.Prelude.{
  ◌≡◌, ◌↔◌, refl, ap, ◌∙◌, Bool, true, false, ◌&&◌, ◌||◌, Option, none, some, List, [], ◌∷◌, ◌++◌,
  foldl, arith, if◌then◌else◌, any, any-append, All, inl, inr, Bool-cases,
}
use migraguard.Prelude.Text.{Text, ◌==◌, eq_refl, eq_sound}
use migraguard.Prelude.Maps.{
  has, Distinct, lookup, lookup-insert, keys, Distinct-keys-insert, lookup-not_key,
}
use migraguard.Naming.{Phase, expand, phase_eq}
use migraguard.Scanner.{MigrationFile}
use migraguard.Commands.Check.{is_some, group_phase, add_phase, add_to_group, group_files}

abbrev pub has_expand : List Phase → Bool
has_expand = any (λ q. phase_eq q expand)

-- The file belongs to the group.
abbrev pub in_group_of : Text → Option (Text × Phase) → Bool
in_group_of g none = false
in_group_of g (some (h, p)) = h == g

abbrev is_expand_in : Text → Option (Text × Phase) → Bool
is_expand_in g none = false
is_expand_in g (some (h, p)) = (h == g) && phase_eq p expand

-- The file is the expand phase of the group.
abbrev pub is_expand_of : Text → MigrationFile → Bool
is_expand_of g f = is_expand_in g (group_phase f)

abbrev expand_at : Option (List Phase) → Bool
expand_at none = false
expand_at (some ps) = has_expand ps

add_phase-case :
    (p : Phase) (ps : List Phase) (b : Bool)
    → any (λ q. phase_eq q p) ps ≡ b
    → has_expand (if b then ps else ps ++ p ∷ []) ≡ (has_expand ps || phase_eq p expand)
add_phase-case p ps false h = any-append (λ q. phase_eq q expand) ps (p ∷ []) ∙ ground arith
add_phase-case expand ps true h = ground arith
add_phase-case p ps true h = ground arith

has_expand-add_phase :
    (p : Phase) (o : Option (List Phase))
    → has_expand (add_phase p o) ≡ (expand_at o || phase_eq p expand)
has_expand-add_phase p none = ground arith
has_expand-add_phase p (some ps) = add_phase-case p ps (any (λ q. phase_eq q p) ps) refl

expand_at-add :
    (o : Option (Text × Phase)) (g : Text) (m : List (Text × List Phase))
    → expand_at (lookup g (add_to_group o m)) ≡ (expand_at (lookup g m) || is_expand_in g o)
expand_at-add none g m = ground arith
expand_at-add (some (h, p)) g m = elim (Bool-cases (h == g)) [
  | inl same ↦ ground (
    arith,
    lookup-insert h g (add_phase p (lookup h m)) m,
    has_expand-add_phase p (lookup h m),
    eq_sound h g same,
  )
  | inr other ↦ ground (arith, lookup-insert h g (add_phase p (lookup h m)) m)
]

is_some-add :
    (o : Option (Text × Phase)) (g : Text) (m : List (Text × List Phase))
    → is_some (lookup g (add_to_group o m)) ≡ (is_some (lookup g m) || in_group_of g o)
is_some-add none g m = ground arith
is_some-add (some (h, p)) g m = ground (arith, lookup-insert h g (add_phase p (lookup h m)) m)

expand_at-group_files :
    (fs : List MigrationFile) (g : Text) (m : List (Text × List Phase))
    → expand_at (lookup g (foldl (λ m f. add_to_group (group_phase f) m) m fs))
      ≡ (expand_at (lookup g m) || any (is_expand_of g) fs)
expand_at-group_files [] g m = ground arith
expand_at-group_files (f ∷ fs) g m = ground (
  arith,
  expand_at-group_files fs g (add_to_group (group_phase f) m),
  expand_at-add (group_phase f) g m,
)

is_some-group_files :
    (fs : List MigrationFile) (g : Text) (m : List (Text × List Phase))
    → is_some (lookup g (foldl (λ m f. add_to_group (group_phase f) m) m fs))
      ≡ (is_some (lookup g m) || any (λ f. in_group_of g (group_phase f)) fs)
is_some-group_files [] g m = ground arith
is_some-group_files (f ∷ fs) g m = ground (
  arith,
  is_some-group_files fs g (add_to_group (group_phase f) m),
  is_some-add (group_phase f) g m,
)

Distinct-add_to_group :
    (o : Option (Text × Phase)) (m : List (Text × List Phase))
    → Distinct (keys m)
    → Distinct (keys (add_to_group o m))
Distinct-add_to_group none m d = d
Distinct-add_to_group (some (g, p)) m d = Distinct-keys-insert g _ m d

Distinct-group_files :
    (fs : List MigrationFile) (m : List (Text × List Phase))
    → Distinct (keys m)
    → Distinct (keys (foldl (λ m f. add_to_group (group_phase f) m) m fs))
Distinct-group_files [] m d = d
Distinct-group_files (f ∷ fs) m d =
    Distinct-group_files fs (add_to_group (group_phase f) m)
      (Distinct-add_to_group (group_phase f) m d)

abbrev pub EntryExpands : Text × List Phase → Type 0
EntryExpands entry = has_expand entry.1 ≡ true

-- Every key that is there leads to an expand phase.
lookup-entries :
    (m : List (Text × List Phase)) (g : Text)
    → All EntryExpands m
    → is_some (lookup g m) ≡ true
    → expand_at (lookup g m) ≡ true
unfolding lookup
lookup-entries [] g h k = cc
lookup-entries (entry ∷ m) g h k = ground (arith, lookup-entries m g h.1, h.0)

entries-lookup :
    (m : List (Text × List Phase))
    → Distinct (keys m)
    → ((g : Text) → is_some (lookup g m) ≡ true → expand_at (lookup g m) ≡ true)
    → All EntryExpands m
unfolding lookup
entries-lookup [] d h = tt
entries-lookup (entry ∷ m) d h = (
  ground (arith, h entry.0, eq_refl entry.0),
  entries-lookup m d.1 (λ g k. ground (
    arith,
    h g,
    k,
    lookup-not_key g m,
    d.0,
    eq_sound entry.0 g,
    ap (has (keys m)) {x = entry.0} {y = g},
  )),
)

-- No group lacks its expand phase exactly if each file of a group has such a file beside it.
pub group_files_expand :
    (fs : List MigrationFile)
    → All EntryExpands (group_files fs) ↔ (
        (g : Text)
        → any (λ f. in_group_of g (group_phase f)) fs ≡ true
        → any (is_expand_of g) fs ≡ true)
unfolding group_files lookup
group_files_expand fs = (
  λ h g k. ground (
    arith,
    lookup-entries (group_files fs) g h,
    is_some-group_files fs g [],
    expand_at-group_files fs g [],
  ),
  λ h.
      entries-lookup (group_files fs) (Distinct-group_files fs [] tt)
        (λ g k. ground (arith, h g, is_some-group_files fs g [], expand_at-group_files fs g [])),
)
