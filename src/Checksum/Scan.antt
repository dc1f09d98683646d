-- ===== src/Checksum/Scan.antt =====
-- src/checksum.ts: the loop of `normalizeSQL`.
use mathlib.Core.Option.{some-injective}
use migraguard.Prelude.{
  Option-cases, inl, inr, ℕ, zero, suc, ◌≤◌, ◌<◌, ◌≡◌, refl, ap, Bool, true, false, ◌&&◌, ◌||◌,
  Option, none, some, [], ◌∷◌, ◌++◌, arith, if◌then◌else◌, nat_eq, length,
}
use migraguard.Prelude.Text.{Text, strip_prefix}
use migraguard.Checksum.{
  begins, tail, skip_line, skip_block, escape_string, quoted, dollar_tag, dollar_string, Piece,
  blank, word, word_of, plain_piece, dollar_piece, next_piece, push_text, space_unless, scan,
  trim_end, trim_start, normalize_sql,
}

length-skip_line : (s : Text) → length (skip_line s) ≤ length s
unfolding skip_line
length-skip_line [] = omega arith
length-skip_line (c ∷ s) = ground (arith, length-skip_line s)

length-skip_block : (d : ℕ) (s : Text) → length (skip_block d s) ≤ length s
unfolding skip_block
length-skip_block zero s = omega arith
length-skip_block (suc d) [] = omega arith
length-skip_block (suc d) (a ∷ []) = omega arith
length-skip_block (suc d) (a ∷ b ∷ s) = ground (
  arith,
  length-skip_block (suc (suc d)) s,
  length-skip_block d s,
  length-skip_block (suc d) (b ∷ s),
)

length-escape_string : (s : Text) → length (escape_string s).1 ≤ length s
unfolding escape_string
length-escape_string [] = omega arith
length-escape_string (a ∷ []) = omega arith
length-escape_string (a ∷ b ∷ s) =
    ground (arith, length-escape_string s, length-escape_string (b ∷ s))

length-quoted : (q : ℕ) (s : Text) → length (quoted q s).1 ≤ length s
unfolding quoted
length-quoted q [] = omega arith
length-quoted q (a ∷ []) = omega arith
length-quoted q (a ∷ b ∷ s) = ground (arith, length-quoted q s, length-quoted q (b ∷ s))

strip_prefix-length : (p s rest : Text) → strip_prefix p s ≡ some rest → length rest ≤ length s
unfolding strip_prefix
strip_prefix-length [] s rest h =
    omega (arith, ap (λ (xs : Text). length xs) (some-injective s rest h))
strip_prefix-length (a ∷ p) [] rest h = cc
strip_prefix-length (a ∷ p) (c ∷ s) rest h = ground (arith, strip_prefix-length p s rest)

length-dollar_string : (tag s : Text) → length (dollar_string tag s).1 ≤ length s
unfolding dollar_string
length-dollar_string tag [] = omega arith
length-dollar_string tag (c ∷ s) = elim (Option-cases (strip_prefix tag (c ∷ s))) [
  | inl nothing ↦ rw (nothing, dollar_string) (omega (arith, length-dollar_string tag s))
  | inr (rest, e) ↦ rw (e, dollar_string) (strip_prefix-length tag (c ∷ s) rest e)
]

dollar_tag-length : (s tag rest : Text) → dollar_tag s ≡ some (tag, rest) → length rest ≤ length s
unfolding dollar_tag
dollar_tag-length [] tag rest h = cc
dollar_tag-length (c ∷ s) tag rest h = elim (Option-cases (dollar_tag s)) [
  | inl nothing ↦ ground arith
  | inr ((t, r), e) ↦ ground (arith, dollar_tag-length s t r e)
]

-- What is left after a round.
abbrev left_of : Piece → Text
left_of (blank rest) = rest
left_of (word t rest) = rest

length-plain_piece : (c : ℕ) (s : Text) → length (left_of (plain_piece c s)) ≤ length s
length-plain_piece c s = ground arith

length-dollar_piece :
    (c : ℕ) (s : Text) (o : Option (Text × Text))
    → dollar_tag s ≡ o
    → length (left_of (dollar_piece c s o)) ≤ length s
length-dollar_piece c s none e = length-plain_piece c s
length-dollar_piece c s (some (tag, rest)) e =
    omega (arith, length-dollar_string (c ∷ tag) rest, dollar_tag-length s tag rest e)

length-tail : (s : Text) → length (tail s) ≤ length s
length-tail [] = omega arith
length-tail (c ∷ s) = omega arith

left-if :
    (b : Bool) (x y : Piece) (n : ℕ)
    → length (left_of x) ≤ n
    → length (left_of y) ≤ n
    → length (left_of (if b then x else y)) ≤ n
left-if true x y n p q = p
left-if false x y n p q = q

-- No round leaves more than what follows its first code unit.
length-next_piece : (c : ℕ) (s : Text) → length (left_of (next_piece c s)) ≤ length s
unfolding next_piece
length-next_piece c s =
    let n = length s in
    let t = length-tail s in
    left-if (nat_eq c 45 && begins 45 s) (blank (skip_line (tail s))) _ n
      (omega (arith, t, length-skip_line (tail s)))
      (left-if (nat_eq c 47 && begins 42 s) (blank (skip_block 1 (tail s))) _ n
        (omega (arith, t, length-skip_block 1 (tail s)))
        (left-if ((nat_eq c 69 || nat_eq c 101) && begins 39 s)
          (word_of (c ∷ 39 ∷ []) (escape_string (tail s))) _ n
          (omega (arith, t, length-escape_string (tail s)))
          (left-if (nat_eq c 39) (word_of (c ∷ []) (quoted 39 s)) _ n (length-quoted 39 s) (
            left-if (nat_eq c 34) (word_of (c ∷ []) (quoted 34 s)) _ n (length-quoted 34 s) (
              left-if (nat_eq c 36) (dollar_piece c s (dollar_tag s)) (plain_piece c s) n
                (length-dollar_piece c s (dollar_tag s) refl) (length-plain_piece c s))))))

pushed :
    (t : Text) (o : Option Text)
    → ((out : Text) × (o ≡ some out))
    → (out : Text) × (push_text t o ≡ some out)
pushed t o (out, e) = (t ++ out, ap (push_text t) e)

-- One round, if the loop ends on what it leaves.
piece-ends :
    (fuel : ℕ) (last : Bool) (p : Piece)
    → ((s : Text) (last : Bool) → length s < fuel → (out : Text) × (scan fuel s last ≡ some out))
    → length (left_of p) < fuel
    → (out : Text) × ((elim p as (λ _. Option Text) [
      | blank rest ↦ push_text (space_unless last) (scan fuel rest true)
      | word t rest ↦ push_text t (scan fuel rest false)
    ])
        ≡ some out)
piece-ends fuel last (blank rest) ends h = pushed (space_unless last) _ (ends rest true h)
piece-ends fuel last (word t rest) ends h = pushed t _ (ends rest false h)

scan-ends :
    (fuel : ℕ) (s : Text) (last : Bool)
    → length s < fuel
    → (out : Text) × (scan fuel s last ≡ some out)
unfolding scan
scan-ends zero s last h = absurd (omega arith)
scan-ends (suc fuel) [] last h = ([], refl)
scan-ends (suc fuel) (c ∷ s) last h =
    piece-ends fuel last (next_piece c s) (λ s last h. scan-ends fuel s last h)
      (omega (arith, h, length-next_piece c s))

-- The loop ends within its fuel: every text has a normal form.
pub normalize_sql_total : (content : Text) → (out : Text) × (normalize_sql content ≡ some out)
unfolding normalize_sql
normalize_sql_total content =
    let (out, e) = scan-ends (suc (length content)) content true (omega arith) in
    (trim_end (trim_start out), rw (e, normalize_sql) refl)
