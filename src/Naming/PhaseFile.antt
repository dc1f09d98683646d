-- ===== src/Naming/PhaseFile.antt =====
-- src/naming.ts: the names of phase files, /^(\d+)_(expand|backfill|switch|contract)\.sql$/.
use migraguard.Prelude.{
  ℕ, ◌≡◌, refl, ap, ◌∙◌, true, Option, none, some, [], ◌<◌, ◌∷◌, ◌++◌, find, every, ◌>>=◌,
  if◌then◌else◌, arith,
}
use migraguard.Prelude.Text.{Text, codes, ◌==◌}
use migraguard.Naming.{
  Phase, expand, backfill, switch, contract, all_phases, phase_name, ParsedPhaseFile, Number, exact,
  exact_limit,
}
use migraguard.Naming.Decimal.{
  is_digit, starts_digit, starts_digit-pad_start, parse_int, show_nat, pad_start,
  parse_int-pad_start, digits-pad_start,
}

-- \d* at the start, and what is behind it
unfoldable digits_at : Text → Text
digits_at [] = []
digits_at (c ∷ s) = if is_digit c then c ∷ digits_at s else []

unfoldable behind_digits : Text → Text
behind_digits [] = []
behind_digits (c ∷ s) = if is_digit c then behind_digits s else c ∷ s

abbrev pub phase_tail : Phase → Text
phase_tail phase = codes "_" ++ phase_name phase ++ codes ".sql"

abbrev phase_file_of : Text → Text → Number → Text → Option ParsedPhaseFile
phase_file_of file_name [] order tail = none
phase_file_of file_name (d ∷ ds) order tail = do
  phase ← find (λ p. tail == phase_tail p) all_phases
  some record { order = order; phase = phase; file_name = file_name }

-- The name is a match if a phase is behind at least one digit and nothing is left.
unfoldable pub parse_phase_file_name : Text → Option ParsedPhaseFile
unfolding digits_at behind_digits
parse_phase_file_name file_name =
    phase_file_of file_name (digits_at file_name) (parse_int (digits_at file_name))
      (behind_digits file_name)

digits_at-append : (ds s : Text) → every is_digit ds ≡ true → digits_at (ds ++ 95 ∷ s) ≡ ds
unfolding digits_at
digits_at-append [] s h = refl
digits_at-append (d ∷ ds) s h = ground (arith, h, digits_at-append ds s)

behind_digits-append :
    (ds s : Text) → every is_digit ds ≡ true → behind_digits (ds ++ 95 ∷ s) ≡ 95 ∷ s
unfolding behind_digits
behind_digits-append [] s h = refl
behind_digits-append (d ∷ ds) s h = ground (arith, h, behind_digits-append ds s)

phase_file_of-tail :
    (name ds : Text) (order : Number) (p : Phase)
    → starts_digit ds ≡ true
    → phase_file_of name ds order (phase_tail p)
      ≡ some record { order = order; phase = p; file_name = name }
unfolding ◌==◌
phase_file_of-tail name [] order p h = cc
phase_file_of-tail name (d ∷ ds) order expand h = refl
phase_file_of-tail name (d ∷ ds) order backfill h = refl
phase_file_of-tail name (d ∷ ds) order switch h = refl
phase_file_of-tail name (d ∷ ds) order contract h = refl

-- A file name of a number below 2 ^ 53, padded to any width, and a phase is read back as that number
-- and phase.
pub parse_phase_file_name-written :
    (width n : ℕ) (p : Phase)
    → n < exact_limit
    → let name = pad_start width (show_nat n) ++ phase_tail p in
      parse_phase_file_name name ≡ some record { order = exact n; phase = p; file_name = name }
unfolding parse_phase_file_name
parse_phase_file_name-written width n p small =
    let ds = pad_start width (show_nat n) in
    let tail = phase_name p ++ codes ".sql" in
    let name = ds ++ 95 ∷ tail in
    let digits = digits-pad_start width n in
    ap (λ t. phase_file_of name (digits_at name) (parse_int (digits_at name)) t)
      (behind_digits-append ds tail digits)
    ∙ ap (λ t. phase_file_of name t (parse_int t) (phase_tail p)) (digits_at-append ds tail digits)
    ∙ ap (λ o. phase_file_of name ds o (phase_tail p)) (parse_int-pad_start width n small)
    ∙ phase_file_of-tail name ds (exact n) p (starts_digit-pad_start width n)
