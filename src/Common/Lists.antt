-- ===== src/Common/Lists.antt =====
-- Lists as the program uses them: tests on all elements, filters, distinct elements.
use mathlib.Core.Path.{◌≡◌, refl, ◌∙◌}
use mathlib.Core.Bool.{Bool, true, false, ◌&&◌, ◌||◌}
use mathlib.Core.List.{List, [], ◌∷◌, ◌++◌}
use mathlib.Core.Logic.{inl, inr}
use native.Mathlib.Omega.{arith}
use sandbox_tester.Common.Equality.{Eq, contains, if◌then◌else◌, Bool-cases}

module _ {ℓ} {A : Type ℓ} where
  abbrev pub All {κ} : (A → Type κ) → List A → Type κ
  All holds [] = Unit
  All holds (x ∷ rest) = holds x × All holds rest

  pub All-map {κ₁ κ₂} :
      (P : A → Type κ₁) (Q : A → Type κ₂) (xs : List A)
      → ((x : A) → P x → Q x)
      → All P xs
      → All Q xs
  All-map P Q [] f h = tt
  All-map P Q (x ∷ xs) f (first, rest) = (f x first, All-map P Q xs f rest)

  -- `[x for x in xs if keep(x)]`
  unfoldable pub keep_if : (A → Bool) → List A → List A
  keep_if keep [] = []
  keep_if keep (x ∷ xs) = let rest = keep_if keep xs in if keep x then x ∷ rest else rest

  -- `[y for x in xs for y in f(x)]`, the loops that extend a list of options.
  unfoldable pub flat_map {κ} : {B : Type κ} → (A → List B) → List A → List B
  flat_map f [] = []
  flat_map f (x ∷ xs) = f x ++ flat_map f xs

module _ {ℓ} {A : Type ℓ} ⦃e : Eq A⦄ where
  abbrev pub IsDistinct : List A → Type 0
  IsDistinct [] = Unit
  IsDistinct (x ∷ xs) = (contains xs x ≡ false) × IsDistinct xs

  pub contains-append :
      (xs ys : List A) (a : A) → contains (xs ++ ys) a ≡ (contains xs a || contains ys a)
  contains-append [] ys a = refl
  contains-append (x ∷ xs) ys a = ground (arith, contains-append xs ys a)

  pub contains-keep_if :
      (keep : A → Bool) (xs : List A) (a : A)
      → contains (keep_if keep xs) a ≡ (contains xs a && keep a)
  unfolding keep_if
  contains-keep_if keep [] a = refl
  contains-keep_if keep (x ∷ xs) a = ground (arith, contains-keep_if keep xs a)

  pub keep_if-IsDistinct :
      (keep : A → Bool) (xs : List A) → IsDistinct xs → IsDistinct (keep_if keep xs)
  unfolding keep_if
  keep_if-IsDistinct keep [] d = tt
  keep_if-IsDistinct keep (x ∷ xs) (fresh, d) =
      ground (arith, keep_if-IsDistinct keep xs d, contains-keep_if keep xs x)

  -- The keys of a dict to which the elements of a list are added in turn.
  unfoldable pub fromkeys_onto : List A → List A → List A
  fromkeys_onto keys [] = keys
  fromkeys_onto keys (x ∷ xs) = fromkeys_onto (if contains keys x then keys else keys ++ x ∷ []) xs

  -- `list(dict.fromkeys(xs))`
  unfoldable pub fromkeys : List A → List A
  unfolding fromkeys_onto
  fromkeys xs = fromkeys_onto [] xs

  contains-fromkeys_onto :
      (keys xs : List A) (a : A)
      → contains (fromkeys_onto keys xs) a ≡ (contains keys a || contains xs a)
  unfolding fromkeys_onto
  contains-fromkeys_onto keys [] a = ground arith
  contains-fromkeys_onto keys (x ∷ xs) a =
      contains-fromkeys_onto (if contains keys x then keys else keys ++ x ∷ []) xs a
      ∙ ground (arith, contains-append keys (x ∷ []) a)

  snoc-IsDistinct :
      (keys : List A) (x : A)
      → IsDistinct keys
      → contains keys x ≡ false
      → IsDistinct (keys ++ x ∷ [])
  snoc-IsDistinct [] x d fresh = (refl, tt)
  snoc-IsDistinct (k ∷ keys) x d fresh =
      ground (arith, snoc-IsDistinct keys x d.1, contains-append keys (x ∷ []) k)

  fromkeys_onto-IsDistinct :
      (keys xs : List A) → IsDistinct keys → IsDistinct (fromkeys_onto keys xs)
  unfolding fromkeys_onto
  fromkeys_onto-IsDistinct keys [] d = d
  fromkeys_onto-IsDistinct keys (x ∷ xs) d = elim (Bool-cases (contains keys x)) [
    | inl old ↦ rw old (fromkeys_onto-IsDistinct keys xs d)
    | inr new ↦ rw new (fromkeys_onto-IsDistinct (keys ++ x ∷ []) xs (snoc-IsDistinct keys x d new))
  ]

  pub contains-fromkeys : (xs : List A) (a : A) → contains (fromkeys xs) a ≡ contains xs a
  unfolding fromkeys
  contains-fromkeys xs a = contains-fromkeys_onto [] xs a

  pub fromkeys-IsDistinct : (xs : List A) → IsDistinct (fromkeys xs)
  unfolding fromkeys
  fromkeys-IsDistinct xs = fromkeys_onto-IsDistinct [] xs tt

  pub contains-append_left :
      (xs ys : List A) (a : A) → contains xs a ≡ true → contains (xs ++ ys) a ≡ true
  contains-append_left xs ys a h = ground (arith, contains-append xs ys a)

  pub contains-append_right :
      (xs ys : List A) (a : A) → contains ys a ≡ true → contains (xs ++ ys) a ≡ true
  contains-append_right xs ys a h = ground (arith, contains-append xs ys a)
