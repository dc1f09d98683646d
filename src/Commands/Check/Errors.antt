-- ===== src/Commands/Check/Errors.antt =====
-- src/commands/check.ts: when a list of errors that is put together is empty.
use migraguard.Prelude.{
  ℕ, ltb, ◌≤◌, ◌≡◌, ◌↔◌, refl, sym, ◌∙◌, Bool, true, false, not, ◌&&◌, ◌||◌, List, [], ◌∷◌, ◌++◌,
  arith, if◌then◌else◌, All, inl, inr, Bool-cases, if_true, if_false,
}
use migraguard.Commands.Check.{CheckError, collect}

append-nil_left : (xs ys : List CheckError) → xs ++ ys ≡ [] → xs ≡ []
append-nil_left [] ys h = refl
append-nil_left (x ∷ xs) ys h = cc

append-nil_right : (xs ys : List CheckError) → xs ++ ys ≡ [] → ys ≡ []
append-nil_right [] ys h = h
append-nil_right (x ∷ xs) ys h = cc

nil-append : (xs ys : List CheckError) → xs ≡ [] → ys ≡ [] → xs ++ ys ≡ []
nil-append [] ys h k = k
nil-append (x ∷ xs) ys h k = cc

append-nil {ℓ} :
    (xs ys : List CheckError) (P : Type ℓ) → (ys ≡ []) ↔ P → (xs ++ ys ≡ []) ↔ ((xs ≡ []) × P)
append-nil xs ys P rest = (
  λ h. (append-nil_left xs ys h, rest.0 (append-nil_right xs ys h)),
  λ (h, k). nil-append xs ys h (rest.1 k),
)

pub six_parts :
    (a b c d e f : List CheckError)
    → (a ++ (b ++ (c ++ (d ++ (e ++ f)))) ≡ [])
      ↔ ((a ≡ []) × ((b ≡ []) × ((c ≡ []) × ((d ≡ []) × ((e ≡ []) × (f ≡ []))))))
six_parts a b c d e f =
    append-nil a _ _
      (append-nil b _ _ (append-nil c _ _ (append-nil d _ _ (append-nil e f _ (λ k. k, λ k. k)))))

collect-All {ℓ} :
    {A : Type ℓ} (f : A → List CheckError) (xs : List A)
    → collect f xs ≡ []
    → All (λ x. f x ≡ []) xs
collect-All f [] h = tt
collect-All f (x ∷ xs) h = (
  append-nil_left (f x) (collect f xs) h,
  collect-All f xs (append-nil_right (f x) (collect f xs) h),
)

All-collect {ℓ} :
    {A : Type ℓ} (f : A → List CheckError) (xs : List A)
    → All (λ x. f x ≡ []) xs
    → collect f xs ≡ []
All-collect f [] h = refl
All-collect f (x ∷ xs) h = nil-append (f x) (collect f xs) h.0 (All-collect f xs h.1)

All-All {ℓ κ μ} :
    {A : Type ℓ} (P : A → Type κ) (Q : A → Type μ) (xs : List A)
    → ((x : A) → P x ↔ Q x)
    → All P xs ↔ All Q xs
All-All P Q [] h = (λ k. tt, λ k. tt)
All-All P Q (x ∷ xs) h =
    (λ k. ((h x).0 k.0, (All-All P Q xs h).0 k.1), λ k. ((h x).1 k.0, (All-All P Q xs h).1 k.1))

-- The errors of a loop over the list are none exactly if each round has none.
pub collect-nil {ℓ κ} :
    {A : Type ℓ} (f : A → List CheckError) (P : A → Type κ) (xs : List A)
    → ((x : A) → (f x ≡ []) ↔ P x)
    → (collect f xs ≡ []) ↔ All P xs
collect-nil f P xs h = (
  λ k. (All-All (λ x. f x ≡ []) P xs h).0 (collect-All f xs k),
  λ k. All-collect f xs ((All-All (λ x. f x ≡ []) P xs h).1 k),
)

pub one_error : (b : Bool) (e : CheckError) → ((if b then [] else e ∷ []) ≡ []) ↔ (b ≡ true)
one_error true e = (λ h. refl, λ h. refl)
one_error false e = (λ h. cc, λ h. cc)

pub no_error : (b : Bool) (e : CheckError) → ((if b then e ∷ [] else []) ≡ []) ↔ (b ≡ false)
no_error true e = (λ h. cc, λ h. cc)
no_error false e = (λ h. refl, λ h. refl)

pub or_nil :
    (b c : Bool) (xs : List CheckError)
    → (xs ≡ []) ↔ (c ≡ true)
    → ((if b then [] else xs) ≡ []) ↔ ((b || c) ≡ true)
or_nil true c xs h = (λ k. refl, λ k. refl)
or_nil false c xs h = h

pub at_most_one :
    (dag : Bool) (n : ℕ) (e : CheckError) (es : List CheckError)
    → ((if not dag && ltb 1 n then e ∷ es else []) ≡ []) ↔ (dag ≡ false → n ≤ 1)
at_most_one true n e es = (λ h k. cc, λ h. refl)
at_most_one false n e es = elim (Bool-cases (ltb 1 n)) [
  | inl more ↦
      (λ h. cc (sym (if_true (ltb 1 n) (e ∷ es) [] more) ∙ h), λ h. absurd (ground (arith, h refl)))
  | inr few ↦ (λ h k. ground arith, λ h. if_false (ltb 1 n) (e ∷ es) [] few)
]
