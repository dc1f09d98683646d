-- ===== src/Directives/Lines.antt =====
-- src/deps.ts and src/rules/engine.ts: a directive that has its own line.
use migraguard.Prelude.{
  ℕ, suc, ◌-◌, ◌≡◌, refl, ap, Bool, true, false, not, some, [], ◌∷◌, ◌++◌, length, every, arith,
}
use migraguard.Prelude.Text.{Text, strip_prefix, ◌==◌}
use migraguard.Checksum.{is_space}
use migraguard.Directives.{is_line_break, skip_spaces, word_at, directive_at, directives}

abbrev pub has_no_space : Text → Bool
has_no_space s = every (λ c. not (is_space c)) s

pub word_at-append : (s t : Text) → has_no_space s ≡ true → word_at (s ++ 10 ∷ t) ≡ s
unfolding word_at
word_at-append [] t h = refl
word_at-append (c ∷ s) t h =
    ground (arith, word_at-append s t, ap (λ r. c ∷ r) {x = word_at (s ++ 10 ∷ t)} {y = s})

pub skip_spaces-append :
    (s t : Text) → has_no_space s ≡ true → (s == []) ≡ false → skip_spaces (s ++ t) ≡ s ++ t
unfolding skip_spaces ◌==◌
skip_spaces-append [] t h e = cc
skip_spaces-append (c ∷ s) t h e = ground arith

suc-sub-one : (n : ℕ) → suc n - 1 ≡ n
suc-sub-one n = omega arith

module _ (word : Text) (value_at : Text → Text) where
  directives-break :
      (b : Bool) (t : Text)
      → directives word value_at 0 b (10 ∷ t) ≡ directives word value_at 0 true t
  unfolding directives directive_at strip_prefix
  directives-break true t = refl
  directives-break false t = refl

  directives-skip :
      (s t : Text) (b : Bool)
      → directives word value_at (length s) b (s ++ 10 ∷ t) ≡ directives word value_at 0 true t
  unfolding directives
  directives-skip [] t b = directives-break b t
  directives-skip (c ∷ s) t b = directives-skip s t (is_line_break c)

  -- A match that ends where its line does.
  pub directives-line :
      (c : ℕ) (s t value : Text)
      → directive_at word value_at (c ∷ s ++ 10 ∷ t) ≡ some (value, suc (length s))
      → directives word value_at 0 true (c ∷ s ++ 10 ∷ t)
        ≡ value ∷ directives word value_at 0 true t
  unfolding directives
  directives-line c s t value h =
      rw (h, directives, suc-sub-one (length s))
        (ap (λ r. value ∷ r) (directives-skip s t (is_line_break c)))
