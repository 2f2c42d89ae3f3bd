-- ===== src/Prelude/Members.antt =====
-- Membership by recursion, which the tactics take apart, and a predicate of all the elements.
use Prim.Native.Nat.{ℕ, zero, suc}
use mathlib.Core.Path.{◌≡◌, refl, ap, ◌∙◌}
use mathlib.Core.Bool.{Bool, true, false}
use mathlib.Core.Logic.{◌⊎◌, inl, inr}
use mathlib.Core.Option.{Option, none, some}
use mathlib.Core.List.{List, [], ◌∷◌, ◌++◌}
use native.Mathlib.Omega.{arith}
use run_on_mine.Prelude.Tests.{Bool-cases}
use run_on_mine.Prelude.Lists.{filter, any, find, update_where}

module _ {ℓ} {A : Type ℓ} where
  abbrev pub All {κ} : (A → Type κ) → List A → Type κ
  All P [] = Unit
  All P (x ∷ xs) = P x × All P xs

  abbrev pub get_elem? : List A → ℕ → Option A
  get_elem? [] i = none
  get_elem? (x ∷ xs) zero = some x
  get_elem? (x ∷ xs) (suc i) = get_elem? xs i

module _ {A : Type 0} where
  abbrev pub In : A → List A → Type 0
  In a [] = ⊥
  In a (x ∷ xs) = (a ≡ x) ⊎ In a xs

  pub In-filter : (p : A → Bool) (xs : List A) (a : A) → In a xs → p a ≡ true → In a (filter p xs)
  unfolding filter
  In-filter p [] a m h = m
  In-filter p (x ∷ xs) a m h = ground (arith, In-filter p xs a)

  pub In-of-filter :
      (p : A → Bool) (xs : List A) (a : A) → In a (filter p xs) → In a xs × (p a ≡ true)
  unfolding filter
  In-of-filter p [] a m = absurd m
  In-of-filter p (x ∷ xs) a m = ground (arith, In-of-filter p xs a)

  pub In-get_elem? : (xs : List A) (i : ℕ) (a : A) → get_elem? xs i ≡ some a → In a xs
  In-get_elem? [] i a h = cc
  In-get_elem? (x ∷ xs) zero a h = ground arith
  In-get_elem? (x ∷ xs) (suc i) a h = inr (In-get_elem? xs i a h)

  pub In-append_left : (xs ys : List A) (a : A) → In a xs → In a (xs ++ ys)
  In-append_left [] ys a m = absurd m
  In-append_left (x ∷ xs) ys a m = ground (arith, In-append_left xs ys a)

  pub In-append_right : (xs ys : List A) (a : A) → In a ys → In a (xs ++ ys)
  In-append_right [] ys a m = m
  In-append_right (x ∷ xs) ys a m = inr (In-append_right xs ys a m)

  pub In-append : (xs ys : List A) (a : A) → In a (xs ++ ys) → In a xs ⊎ In a ys
  In-append [] ys a m = inr m
  In-append (x ∷ xs) ys a (inl e) = inl (inl e)
  In-append (x ∷ xs) ys a (inr m) = elim (In-append xs ys a m) [
    | inl l ↦ inl (inr l)
    | inr r ↦ inr r
  ]

  pub any-In : (p : A → Bool) (xs : List A) (a : A) → In a xs → p a ≡ true → any p xs ≡ true
  unfolding any
  any-In p [] a m h = absurd m
  any-In p (x ∷ xs) a m h = ground (arith, any-In p xs a)

  pub not-any-In : (p : A → Bool) (xs : List A) (a : A) → any p xs ≡ false → In a xs → p a ≡ false
  unfolding any
  not-any-In p [] a h m = absurd m
  not-any-In p (x ∷ xs) a h m = ground (arith, not-any-In p xs a)

  pub In-of-update_where :
      (p : A → Bool) (f : A → A) (xs : List A) (a : A)
      → In a (update_where p f xs)
      → ((x : A) × In x xs × (p x ≡ true) × (a ≡ f x)) ⊎ (In a xs × (p a ≡ false))
  unfolding update_where
  In-of-update_where p f [] a m = absurd m
  In-of-update_where p f (x ∷ xs) a (inr m) = elim (In-of-update_where p f xs a m) [
    | inl (r, rm, t, e) ↦ inl (r, inr rm, t, e)
    | inr (rm, g) ↦ inr (inr rm, g)
  ]
  In-of-update_where p f (x ∷ xs) a (inl e) = elim (Bool-cases (p x)) [
    | inl t ↦ inl (x, inl refl, t, e ∙ rw t)
    | inr g ↦ let same : a ≡ x = e ∙ rw g in inr (inl same, ap p same ∙ g)
  ]

  pub find-In : (p : A → Bool) (xs : List A) (a : A) → find p xs ≡ some a → In a xs × (p a ≡ true)
  unfolding find
  find-In p [] a h = cc
  find-In p (x ∷ xs) a h = ground (arith, find-In p xs a)
