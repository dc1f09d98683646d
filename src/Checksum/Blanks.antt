-- ===== src/Checksum/Blanks.antt =====
-- src/checksum.ts: comments and white space in `normalizeSQL`.
use mathlib.Core.List.{append_assoc}
use migraguard.Prelude.{
  ℕ, suc, ◌≡◌, refl, sym, ap, ◌∙◌, Bool, true, false, not, ◌||◌, Option, none, some, [], ◌∷◌, ◌++◌,
  arith, nat_eq, every,
}
use migraguard.Prelude.Text.{Text, codes}
use migraguard.Checksum.{
  is_space, skip_line, skip_block, blank, next_piece, push_text, space_unless, scan,
}

skip_line-append :
    (comment rest : Text)
    → every (λ c. not (nat_eq c 10)) comment ≡ true
    → skip_line (comment ++ 10 ∷ rest) ≡ rest
unfolding skip_line
skip_line-append [] rest h = refl
skip_line-append (c ∷ comment) rest h = ground (arith, skip_line-append comment rest)

-- A line comment is read as the line feed that ends it, wherever the loop comes to it.
pub line_comment_blank :
    (fuel : ℕ) (comment rest : Text) (last : Bool)
    → every (λ c. not (nat_eq c 10)) comment ≡ true
    → scan (suc fuel) (codes "--" ++ (comment ++ 10 ∷ rest)) last ≡ scan (suc fuel) (10 ∷ rest) last
unfolding scan next_piece
line_comment_blank fuel comment rest last h =
    ap (λ t. push_text (space_unless last) (scan fuel t true)) (skip_line-append comment rest h)

space-piece : (c : ℕ) (s : Text) → is_space c ≡ true → next_piece c s ≡ blank s
unfolding next_piece
space-piece c s h = ground arith

scan-space :
    (fuel : ℕ) (c : ℕ) (s : Text) (last : Bool)
    → is_space c ≡ true
    → scan (suc fuel) (c ∷ s) last ≡ push_text (space_unless last) (scan fuel s true)
unfolding scan
scan-space fuel c s last h = rw (space-piece c s h, scan) refl

push_text-nil : (o : Option Text) → push_text [] o ≡ o
push_text-nil none = refl
push_text-nil (some out) = refl

-- Two white spaces are read as one, wherever the loop comes to them.
pub spaces_collapse :
    (fuel : ℕ) (a b : ℕ) (rest : Text) (last : Bool)
    → is_space a ≡ true
    → is_space b ≡ true
    → scan (suc (suc fuel)) (a ∷ b ∷ rest) last ≡ scan (suc fuel) (a ∷ rest) last
spaces_collapse fuel a b rest last ha hb =
    scan-space (suc fuel) a (b ∷ rest) last ha
    ∙ ap (push_text (space_unless last))
        (scan-space fuel b rest true hb ∙ push_text-nil (scan fuel rest true))
    ∙ sym (scan-space fuel a rest last ha)

-- The inside of a block comment, with comments inside it, and no stars and slashes of its own.
pub data CommentBody : Text → Type 0 where
  no_more : CommentBody []
  with_char :
      {c : ℕ} {s : Text}
      → (nat_eq c 42 || nat_eq c 47) ≡ false
      → CommentBody s
      → CommentBody (c ∷ s)
  with_comment :
      {inner s : Text}
      → CommentBody inner
      → CommentBody s
      → CommentBody (47 ∷ 42 ∷ (inner ++ (42 ∷ 47 ∷ s)))

skip_block-char :
    (depth : ℕ) (c : ℕ) (s : Text)
    → (nat_eq c 42 || nat_eq c 47) ≡ false
    → skip_block (suc depth) (c ∷ s) ≡ skip_block (suc depth) s
unfolding skip_block
skip_block-char depth c [] h = refl
skip_block-char depth c (b ∷ s) h = ground arith

skip_block-body :
    (depth : ℕ) {body : Text} (rest : Text)
    → CommentBody body
    → skip_block (suc depth) (body ++ (42 ∷ 47 ∷ rest)) ≡ skip_block depth rest
unfolding skip_block
skip_block-body depth rest no_more = refl
skip_block-body depth rest (with_char {c} {s} h body) =
    skip_block-char depth c (s ++ (42 ∷ 47 ∷ rest)) h ∙ skip_block-body depth rest body
skip_block-body depth rest (with_comment {inner} {s} first body) =
    ap (skip_block (suc (suc depth))) (append_assoc inner (42 ∷ 47 ∷ s) (42 ∷ 47 ∷ rest))
    ∙ skip_block-body (suc depth) (s ++ (42 ∷ 47 ∷ rest)) first
    ∙ skip_block-body depth rest body

-- A block comment is read as a space, wherever the loop comes to it, with the comments that stand inside it;
-- beside those it has no star and no slash inside.
block_comment_blank :
    (fuel : ℕ) (body rest : Text) (last : Bool)
    → CommentBody body
    → scan (suc fuel) (codes "/*" ++ (body ++ (42 ∷ 47 ∷ rest))) last
      ≡ scan (suc fuel) (32 ∷ rest) last
unfolding scan next_piece skip_block
block_comment_blank fuel body rest last h =
    ap (λ t. push_text (space_unless last) (scan fuel t true)) (skip_block-body 0 rest h)
