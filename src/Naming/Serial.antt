-- ===== src/Naming/Serial.antt =====
-- src/naming.ts: serial numbers in file names.
use mathlib.Core.Path.{subst}
use migraguard.Prelude.{
  ℕ, ◌+◌, ◌≤◌, ◌<◌, ◌≡◌, Bool, ◌&&◌, not, Option, none, some, List, [], ◌∷◌, ltb, nat_eq, length,
  every, if◌then◌else◌, arith, All, Bool-cases, inl, inr, if_true, if_false, suc, ◌-◌, refl, ap,
  ◌∙◌,
}
use migraguard.Prelude.Text.{Text, ◌==◌}
use migraguard.Naming.{ParsedFileName, Number, nan, exact, inexact, exact_limit, number_of_count}
use migraguard.Naming.Decimal.{
  parse_int, show_nat, pad_start, parse_int-pad_start, length-pad_start, number_of_count-exact,
}

-- /^N+$/.test(format)
abbrev pub is_serial_format : Text → Bool
is_serial_format format = not (format == []) && every (λ c. nat_eq c 78) format

abbrev pub serial_width : Text → ℕ
serial_width format = length format

abbrev raise : Number → Number → Number
raise max nan = max
raise nan num = nan
raise (exact m) (exact n) = if ltb m n then exact n else exact m
raise max num = inexact

-- The loop over the names that are there, with the largest number so far.
unfoldable max_serial : Number → List ParsedFileName → Number
max_serial max [] = max
max_serial max (p ∷ ps) = max_serial (raise max (parse_int p.timestamp)) ps

abbrev add_one : Number → Number
add_one nan = nan
add_one (exact m) = number_of_count (m + 1)
add_one inexact = inexact

abbrev padded : ℕ → Number → Option Text
padded width (exact n) = some (pad_start width (show_nat n))
padded width _ = none

-- `none`: a number from 2 ^ 53 is read or made, of which the model does not tell the text.
unfoldable pub next_serial_number : Text → List ParsedFileName → Option Text
unfolding max_serial
next_serial_number format existing_parsed =
    padded (serial_width format) (add_one (max_serial (exact 0) existing_parsed))

-- The number of a name is below a bound, if it has one.
abbrev pub IsBelow : ℕ → Number → Type 0
IsBelow k nan = Unit
IsBelow k (exact n) = n < k
IsBelow k inexact = ⊥

abbrev pub AreBelow : ℕ → List ParsedFileName → Type 0
AreBelow k ps = All (λ p. IsBelow k (parse_int p.timestamp)) ps

-- Numbers below a bound have a largest one, which is below the bound too.
raise-exact :
    (k m : ℕ) (num : Number)
    → m < k
    → IsBelow k num
    → (n : ℕ) × (raise (exact m) num ≡ exact n) × (n < k) × (m ≤ n) × IsBelow (suc n) num
raise-exact k m nan h b = (m, refl, h, omega arith, tt)
raise-exact k m (exact n) h b = elim (Bool-cases (ltb m n)) [
  | inl less ↦ (n, if_true (ltb m n) (exact n) (exact m) less, b, ground arith, omega arith)
  | inr more ↦ (m, if_false (ltb m n) (exact n) (exact m) more, h, omega arith, ground arith)
]
raise-exact k m inexact h b = absurd b

IsBelow-le : (j k : ℕ) (num : Number) → j ≤ k → IsBelow j num → IsBelow k num
IsBelow-le j k nan h b = tt
IsBelow-le j k (exact n) h b = omega (arith, h, b)
IsBelow-le j k inexact h b = b

max_serial-exact :
    (k m : ℕ) (ps : List ParsedFileName)
    → m < k
    → AreBelow k ps
    → (n : ℕ) × (max_serial (exact m) ps ≡ exact n) × (n < k) × (m ≤ n) × AreBelow (suc n) ps
unfolding max_serial
max_serial-exact k m [] h b = (m, refl, h, omega arith, tt)
max_serial-exact k m (p ∷ ps) h b =
    let num = parse_int p.timestamp in
    let (n, raised, n_small, n_above, one) = raise-exact k m num h b.0 in
    let (top, reached, top_small, top_above, all) = max_serial-exact k n ps n_small b.1 in
    (
      top,
      ap (λ x. max_serial x ps) raised ∙ reached,
      top_small,
      omega (arith, n_above, top_above),
      (IsBelow-le (suc n) (suc top) num (omega (arith, top_above)) one, all),
    )

-- If each number that the timestamps of the names spell is below 2 ^ 53 - 1, there is a next serial
-- number. It has at least the width of the format, and it reads back as a number above all of them.
pub next_serial_number_above :
    (format : Text) (existing_parsed : List ParsedFileName)
    → AreBelow (exact_limit - 1) existing_parsed
    → (next : Text) × (next_serial_number format existing_parsed ≡ some next)
      × (serial_width format ≤ length next)
      × ((k : ℕ) × (parse_int next ≡ exact k) × AreBelow k existing_parsed)
unfolding next_serial_number
next_serial_number_above format existing_parsed small =
    let width = serial_width format in
    let (top, reached, top_small, above, all) =
      max_serial-exact (exact_limit - 1) 0 existing_parsed (omega arith) small in
    let fits : top + 1 < exact_limit = omega (arith, top_small) in
    let next = pad_start width (show_nat (top + 1)) in
    (
      next,
      ap (λ m. padded width (add_one m)) reached
          ∙ ap (padded width) (number_of_count-exact (top + 1) fits),
      length-pad_start width (show_nat (top + 1)),
      (
        top + 1,
        parse_int-pad_start width (top + 1) fits,
        subst (λ k. AreBelow k existing_parsed) (omega arith) all,
      ),
    )
