-- ===== src/Commands/Check/Expected.antt =====
-- src/commands/check.ts: what a check expects, in terms of the metadata and the files.
use migraguard.Prelude.{
  ◌≡◌, ◌↔◌, refl, sym, ap, ◌∙◌, Bool, true, false, not, ◌&&◌, ◌||◌, Option, none, some, List, [],
  ◌∷◌, ◌++◌, foldl, keep, All, get_last?, inl, inr, Bool-cases, arith, if◌then◌else◌, if_true,
  if_false,
}
use mathlib.Core.Path.{subst}
use migraguard.Prelude.Text.{Text, ◌==◌, eq_sound}
use migraguard.Prelude.Maps.{has, add, lookup}
use migraguard.Scanner.{MigrationFile}
use migraguard.Metadata.{
  MetadataJson, BaselineEntry, BaselineInclude, baselines_of, is_pre_model_since,
}
use migraguard.Metadata.Since.{
  reaches_since, not-is_pre_model_since, last_checksum, listed, lookup-entries,
  last_checksum-listed,
}
use migraguard.Deps.{find_leaf_nodes}
use migraguard.Deps.Leaves.{depended_on, has-keep, has-find_leaf_nodes}
use migraguard.Commands.Check.{
  CheckEnv, last_name, metadata_map, is_some, is_recorded, recorded_files, new_files, check_dag,
  editable_set, baselined_files,
}

keep-same :
    (p q : MigrationFile → Bool) (fs : List MigrationFile)
    → ((f : MigrationFile) → p f ≡ q f)
    → keep p fs ≡ keep q fs
keep-same p q [] h = refl
keep-same p q (f ∷ fs) h = ground (arith, h f, keep-same p q fs h)

or_none : (o : Option Text) → (elim o [ none ↦ none | some c ↦ some c ]) ≡ o
or_none none = refl
or_none (some c) = refl

pub lookup-metadata_map :
    (m : MetadataJson) (file : Text)
    → lookup file (metadata_map m) ≡ last_checksum m.migrations file
unfolding metadata_map lookup
lookup-metadata_map m file = ground (arith, lookup-entries m.migrations [] file)

is_recorded-listed :
    (m : MetadataJson) (f : MigrationFile) → is_recorded m f ≡ listed m.migrations f.file_name
is_recorded-listed m f =
    ap is_some (lookup-metadata_map m f.file_name)
    ∙ ground (arith, last_checksum-listed m.migrations f.file_name)

-- A predicate holds for the names of `baselinedFiles` exactly if it does for all that the baselines include.
module _ (P : Text → Type 0) where
  All-has : (xs : List Text) (k : Text) → All P xs → has xs k ≡ true → P k
  unfolding has
  All-has [] k h m = cc
  All-has (x ∷ xs) k h m = elim (Bool-cases (x == k)) [
    | inl same ↦ subst P (eq_sound x k same) h.0
    | inr other ↦ All-has xs k h.1 (ground arith)
  ]

  All-snoc : (xs : List Text) (k : Text) → All P (xs ++ k ∷ []) ↔ (All P xs × P k)
  All-snoc [] k = (λ h. (tt, h.0), λ h. (h.1, tt))
  All-snoc (x ∷ xs) k = (
    λ h. let r = (All-snoc xs k).0 h.1 in ((h.0, r.0), r.1),
    λ h. (h.0.0, (All-snoc xs k).1 (h.0.1, h.1)),
  )

  All-add : (k : Text) (xs : List Text) → All P (add k xs) ↔ (All P xs × P k)
  unfolding add
  All-add k xs = elim (Bool-cases (has xs k)) [
    | inl there ↦ (
      λ h.
          let all = subst (All P) (if_true (has xs k) xs (xs ++ k ∷ []) there) h in
          (all, All-has xs k all there),
      λ h. subst (All P) (sym (if_true (has xs k) xs (xs ++ k ∷ []) there)) h.0,
    )
    | inr new ↦ (
      λ h. (All-snoc xs k).0 (subst (All P) (if_false (has xs k) xs (xs ++ k ∷ []) new) h),
      λ h. subst (All P) (sym (if_false (has xs k) xs (xs ++ k ∷ []) new)) ((All-snoc xs k).1 h),
    )
  ]

  All-includes :
      (incs : List BaselineInclude) (xs : List Text)
      → All P (foldl (λ names inc. add inc.file names) xs incs)
        ↔ (All P xs × All (λ inc. P inc.file) incs)
  All-includes [] xs = (λ h. (h, tt), λ h. h.0)
  All-includes (i ∷ incs) xs =
      let rest = All-includes incs (add i.file xs) in
      let one = All-add i.file xs in
      (
        λ h. let (a, b) = rest.0 h in let (c, d) = one.0 a in (c, (d, b)),
        λ h. rest.1 (one.1 (h.0, h.1.0), h.1.1),
      )

  All-baselines :
      (bs : List BaselineEntry) (xs : List Text)
      → All P (foldl (λ names b. foldl (λ names inc. add inc.file names) names b.includes) xs bs)
        ↔ (All P xs × All (λ b. All (λ inc. P inc.file) b.includes) bs)
  All-baselines [] xs = (λ h. (h, tt), λ h. h.0)
  All-baselines (b ∷ bs) xs =
      let rest = All-baselines bs (foldl (λ names inc. add inc.file names) xs b.includes) in
      let one = All-includes b.includes xs in
      (
        λ h. let (a, c) = rest.0 h in let (d, e) = one.0 a in (d, (e, c)),
        λ h. rest.1 (one.1 (h.0, h.1.0), h.1.1),
      )

  pub All-baselined_files :
      (m : MetadataJson)
      → All P (baselined_files m)
        ↔ All (λ b. All (λ inc. P inc.file) b.includes) (baselines_of m.baselines)
  unfolding baselined_files
  All-baselined_files m =
      let both = All-baselines (baselines_of m.baselines) [] in
      (λ h. (both.0 h).1, λ h. both.1 (tt, h))

module _ (env : CheckEnv) where
  -- The files that the metadata lists, and the others.
  abbrev pub known_files : List MigrationFile
  known_files = keep (λ f. listed env.metadata.migrations f.file_name) env.disk.files

  abbrev pub unknown_files : List MigrationFile
  unknown_files = keep (λ f. not (listed env.metadata.migrations f.file_name)) env.disk.files

  pub recorded_files-known : recorded_files env ≡ known_files
  recorded_files-known = keep-same _ _ env.disk.files (is_recorded-listed env.metadata)

  pub new_files-unknown : new_files env ≡ unknown_files
  new_files-unknown = keep-same _ _ env.disk.files (λ f. ap not (is_recorded-listed env.metadata f))

  abbrev is_last : Option MigrationFile → Text → Bool
  is_last none file = false
  is_last (some l) file = l.file_name == file

  -- In the linear model the last file; in the DAG model the files of the graph to which no edge leads,
  -- if the metadata name the DAG model and a `modelSince` that is not empty and not behind the file.
  abbrev pub may_edit : Text → Bool
  may_edit file =
      if check_dag env
      then (has env.graph.files file && not (depended_on env.graph.edges file))
        && reaches_since env.metadata file
      else is_last (get_last? env.disk.files) file

  has-last : (o : Option MigrationFile) (file : Text) → has (last_name env o) file ≡ is_last o file
  unfolding has
  has-last none file = refl
  has-last (some l) file = ground arith

  by_model :
      (dag : Bool) (xs ys : List Text) (a b : Bool) (file : Text)
      → has xs file ≡ a
      → has ys file ≡ b
      → has (if dag then xs else ys) file ≡ (if dag then a else b)
  by_model true xs ys a b file h k = h
  by_model false xs ys a b file h k = k

  pub has-editable_set : (file : Text) → has (editable_set env) file ≡ may_edit file
  unfolding editable_set
  has-editable_set file =
      by_model (check_dag env) _ _ _ _ file
        (has-keep (λ f. not (is_pre_model_since env.metadata f)) (find_leaf_nodes env.graph) file
          ∙ ap (λ b. b && not (is_pre_model_since env.metadata file))
              (has-find_leaf_nodes env.graph file)
          ∙ ap (λ b. (has env.graph.files file && not (depended_on env.graph.edges file)) && b)
              (not-is_pre_model_since env.metadata file))
        (has-last (get_last? env.disk.files) file)

  abbrev pub keeps_checksum : MigrationFile → Option Text → Bool
  keeps_checksum f none = true
  keeps_checksum f (some expected) =
      (expected == []) || ((env.disk.checksum_file f.file_path == expected) || may_edit f.file_name)

  -- If the metadata list a checksum of the file, which is not the empty string, and the file may not be
  -- edited, the file has that checksum. Of several entries of a file the last one counts.
  abbrev pub is_unchanged : MigrationFile → Bool
  is_unchanged f = keeps_checksum f (last_checksum env.metadata.migrations f.file_name)
