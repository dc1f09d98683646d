-- ===== src/Naming/Decimal.antt =====
-- src/naming.ts: numbers in names, `String(n)`, `padStart` and `parseInt(s, 10)`.
use Prim.Native.Nat.{◌/◌, ◌%◌}
use migraguard.Prelude.{
  ℕ, zero, suc, ◌+◌, ◌-◌, ◌*◌, ◌≤◌, ◌≡◌, refl, ap, ◌∙◌, Bool, true, false, [], ◌<◌, ◌∷◌, nat_eq,
  length, every, if◌then◌else◌, arith,
}
use migraguard.Prelude.Text.{Text}
use migraguard.Checksum.{in_range, is_space}
use migraguard.Naming.{Number, nan, exact, exact_limit, number_of_count}
use migraguard.Directives.{skip_spaces}

abbrev pub is_digit : ℕ → Bool
is_digit c = in_range 48 57 c

-- The digits of `n` in front of `out`: each round divides `n` by ten.
unfoldable pub emit : (fuel n : ℕ) → Text → Text
emit zero n out = out
emit (suc k) n out =
    let longer = emit k (n / 10) ((48 + n % 10) ∷ out) in if nat_eq n 0 then out else longer

-- String(n) of a number below 2 ^ 53. The callers ask for no other.
unfoldable pub show_nat : ℕ → Text
unfolding emit
show_nat n = if nat_eq n 0 then 48 ∷ [] else emit n n []

abbrev zeros : ℕ → Text → Text
zeros zero s = s
zeros (suc n) s = 48 ∷ zeros n s

-- s.padStart(width, '0')
unfoldable pub pad_start : ℕ → Text → Text
pad_start width s = zeros (width - length s) s

-- The number that the digits at the start spell behind `n`.
unfoldable pub read_digits : Text → ℕ → ℕ
read_digits [] n = n
read_digits (c ∷ s) n = if is_digit c then read_digits s (n * 10 + (c - 48)) else n

abbrev digits_value : Text → Number
digits_value [] = nan
digits_value (c ∷ s) = if is_digit c then number_of_count (read_digits (c ∷ s) 0) else nan

abbrev signed_value : Text → Number
signed_value [] = nan
signed_value (c ∷ s) =
    if nat_eq c 43 then digits_value s else if nat_eq c 45 then nan else digits_value (c ∷ s)

-- parseInt(s, 10)
unfoldable pub parse_int : Text → Number
unfolding read_digits skip_spaces
parse_int s = signed_value (skip_spaces s)

read_digits-last :
    (n : ℕ) (out : Text) → read_digits ((48 + n % 10) ∷ out) (n / 10) ≡ read_digits out n
unfolding read_digits
read_digits-last n out = ground arith

read_digits-emit : (k n : ℕ) (out : Text) → n ≤ k → read_digits (emit k n out) 0 ≡ read_digits out n
unfolding emit
read_digits-emit zero n out h = ap (read_digits out) (omega (arith, h))
read_digits-emit (suc k) n out h =
    ground (arith, read_digits-emit k (n / 10) ((48 + n % 10) ∷ out), read_digits-last n out)

pub read_digits-show_nat : (n : ℕ) → read_digits (show_nat n) 0 ≡ n
unfolding show_nat read_digits
read_digits-show_nat n = ground (arith, read_digits-emit n n [] (omega arith))

read_digits-zeros : (k : ℕ) (s : Text) → read_digits (zeros k s) 0 ≡ read_digits s 0
unfolding read_digits
read_digits-zeros zero s = refl
read_digits-zeros (suc k) s = read_digits-zeros k s

pub read_digits-pad_start :
    (width : ℕ) (s : Text) → read_digits (pad_start width s) 0 ≡ read_digits s 0
unfolding pad_start
read_digits-pad_start width s = read_digits-zeros (width - length s) s

abbrev pub starts_digit : Text → Bool
starts_digit [] = false
starts_digit (c ∷ s) = is_digit c

is_digit-last : (n : ℕ) → is_digit (48 + n % 10) ≡ true
is_digit-last n = ground arith

starts_digit-emit :
    (k n : ℕ) (out : Text) → starts_digit out ≡ true → starts_digit (emit k n out) ≡ true
unfolding emit
starts_digit-emit zero n out h = h
starts_digit-emit (suc k) n out h =
    ground (arith, h, starts_digit-emit k (n / 10) ((48 + n % 10) ∷ out) (is_digit-last n))

starts_digit-show_nat : (n : ℕ) → starts_digit (show_nat n) ≡ true
unfolding show_nat emit
starts_digit-show_nat zero = refl
starts_digit-show_nat (suc n) =
    ground
      (arith, starts_digit-emit n (suc n / 10) ((48 + suc n % 10) ∷ []) (is_digit-last (suc n)))

starts_digit-zeros : (k : ℕ) (s : Text) → starts_digit s ≡ true → starts_digit (zeros k s) ≡ true
starts_digit-zeros zero s h = h
starts_digit-zeros (suc k) s h = refl

pub starts_digit-pad_start : (width n : ℕ) → starts_digit (pad_start width (show_nat n)) ≡ true
unfolding pad_start
starts_digit-pad_start width n =
    starts_digit-zeros (width - length (show_nat n)) (show_nat n) (starts_digit-show_nat n)

digit_not_space : (c : ℕ) → is_digit c ≡ true → is_space c ≡ false
digit_not_space c h = ground (arith, h)

parse_int-digits :
    (s : Text) → starts_digit s ≡ true → parse_int s ≡ number_of_count (read_digits s 0)
unfolding parse_int skip_spaces
parse_int-digits [] h = ground (arith, h)
parse_int-digits (c ∷ s) h = ground (arith, h, digit_not_space c h)

pub number_of_count-exact : (n : ℕ) → n < exact_limit → number_of_count n ≡ exact n
number_of_count-exact n h = ground (arith, h)

pub parse_int-pad_start :
    (width n : ℕ) → n < exact_limit → parse_int (pad_start width (show_nat n)) ≡ exact n
unfolding pad_start
parse_int-pad_start width n h =
    parse_int-digits (pad_start width (show_nat n)) (starts_digit-pad_start width n)
    ∙ ap number_of_count (read_digits-pad_start width (show_nat n) ∙ read_digits-show_nat n)
    ∙ number_of_count-exact n h

digits-emit :
    (k n : ℕ) (out : Text) → every is_digit out ≡ true → every is_digit (emit k n out) ≡ true
unfolding emit
digits-emit zero n out h = h
digits-emit (suc k) n out h =
    ground (arith, h, is_digit-last n, digits-emit k (n / 10) ((48 + n % 10) ∷ out))

digits-show_nat : (n : ℕ) → every is_digit (show_nat n) ≡ true
unfolding show_nat
digits-show_nat n = ground (arith, digits-emit n n [] refl)

digits-zeros : (k : ℕ) (s : Text) → every is_digit s ≡ true → every is_digit (zeros k s) ≡ true
digits-zeros zero s h = h
digits-zeros (suc k) s h = digits-zeros k s h

pub digits-pad_start : (width n : ℕ) → every is_digit (pad_start width (show_nat n)) ≡ true
unfolding pad_start
digits-pad_start width n =
    digits-zeros (width - length (show_nat n)) (show_nat n) (digits-show_nat n)

length-zeros : (k : ℕ) (s : Text) → length (zeros k s) ≡ k + length s
length-zeros zero s = omega arith
length-zeros (suc k) s = omega (arith, length-zeros k s)

pub length-pad_start : (width : ℕ) (s : Text) → width ≤ length (pad_start width s)
unfolding pad_start
length-pad_start width s = omega (arith, length-zeros (width - length s) s)
