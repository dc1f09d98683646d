-- ===== src/Naming/Generate.antt =====
-- src/naming.ts: the names of new files and group directories.
use migraguard.Prelude.{
  ℕ, ◌+◌, Bool, false, Option, none, some, List, [], ◌∷◌, ◌++◌, nat_eq, ◌>>=◌, if◌then◌else◌,
}
use migraguard.Prelude.Text.{Text, codes, ◌==◌, strip_prefix}
use migraguard.Naming.{ParsedFileName}
use migraguard.Naming.Decimal.{show_nat, pad_start}
use migraguard.Naming.Serial.{is_serial_format, next_serial_number}

pub record NamingConfig : Type 0 where
  pub pattern : Text
  pub timestamp : Text
  pub prefix : Text
  pub sort_key : Text

-- The parts of a Date in local time; `month` counts from 0.
pub record LocalDate : Type 0 where
  pub year : ℕ
  pub month : ℕ
  pub day : ℕ
  pub hours : ℕ
  pub minutes : ℕ
  pub seconds : ℕ

abbrev replaced : Text → Option Text → Text → Text
replaced with none otherwise = otherwise
replaced with (some behind) otherwise = with ++ behind

-- s.replace(what, with) for strings, where `with` has no dollar sign: the first occurrence.
unfoldable pub replace_first : (what with : Text) → Text → Text
replace_first what with [] = replaced with (strip_prefix what []) []
replace_first what with (c ∷ s) =
    let rest = replace_first what with s in replaced with (strip_prefix what (c ∷ s)) (c ∷ rest)

unfoldable pub generate_timestamp : Text → LocalDate → Text
unfolding replace_first show_nat pad_start
generate_timestamp format d =
    let two : ℕ → Text = λ n. pad_start 2 (show_nat n) in
    let f1 = replace_first (codes "YYYY") (show_nat d.year) format in
    let f2 = replace_first (codes "MM") (two (d.month + 1)) f1 in
    let f3 = replace_first (codes "DD") (two d.day) f2 in
    let f4 = replace_first (codes "HH") (two d.hours) f3 in
    let f5 = replace_first (codes "MM") (two d.minutes) f4 in
    replace_first (codes "SS") (two d.seconds) f5

-- name.replace(/^_+/, '')
unfoldable pub skip_underscores : Text → Text
skip_underscores [] = []
skip_underscores (c ∷ s) = if nat_eq c 95 then skip_underscores s else c ∷ s

abbrev starts_underscores : Text → Bool
starts_underscores (a ∷ b ∷ s) = if nat_eq a 95 then nat_eq b 95 else false
starts_underscores _ = false

-- name.replace(/__+/g, '__'): an underscore before two more is left out
unfoldable pub collapse_underscores : Text → Text
collapse_underscores [] = []
collapse_underscores (c ∷ s) =
    let rest = collapse_underscores s in
    if nat_eq c 95 then (if starts_underscores s then rest else c ∷ rest) else c ∷ rest

-- `none`: as for `next_serial_number`.
unfoldable pub generate_file_name :
    Text → NamingConfig → LocalDate → (existing_parsed : List ParsedFileName) → Option Text
unfolding generate_timestamp next_serial_number replace_first skip_underscores collapse_underscores
generate_file_name description naming now existing_parsed = do
  ts ←
      if is_serial_format naming.timestamp
      then next_serial_number naming.timestamp existing_parsed
      else some (generate_timestamp naming.timestamp now)
  let n1 = replace_first (codes "{timestamp}") ts naming.pattern
  let n2 = replace_first (codes "{description}") description n1
  let n3 = replace_first (codes "{prefix}") naming.prefix n2
  some (collapse_underscores (skip_underscores n3))

-- sqlName.replace(/\.sql$/, '')
unfoldable pub without_sql : Text → Text
without_sql [] = []
without_sql (c ∷ s) = let rest = without_sql s in if (c ∷ s) == codes ".sql" then [] else c ∷ rest

unfoldable pub generate_group_dir_name :
    Text → NamingConfig → LocalDate → List ParsedFileName → Option Text
unfolding generate_file_name without_sql
generate_group_dir_name description naming now existing_parsed = do
  sql_name ← generate_file_name description naming now existing_parsed
  some (without_sql sql_name)
