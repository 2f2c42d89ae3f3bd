-- ===== src/Prelude/Seq.antt =====
-- Sequences compared element by element: `==`, `starts_with`, `strip_prefix`, `contains`, `last`.
use mathlib.Core.Path.{◌≡◌, refl}
use mathlib.Core.Logic.{◌↔◌}
use mathlib.Core.Bool.{Bool, true, false, ◌&&◌, ◌||◌}
use mathlib.Core.Option.{Option, none, some}
use mathlib.Core.List.{List, [], ◌∷◌, ◌++◌}
use native.Mathlib.Omega.{arith}
use run_on_mine.Prelude.Tests.{if◌then◌else◌}
use run_on_mine.Prelude.Eq.{Eq, ◌==◌}

abbrev pub is_some {ℓ} : {A : Type ℓ} → Option A → Bool
is_some none = false
is_some (some a) = true

module _ {ℓ} {A : Type ℓ} where
  unfoldable pub last : List A → Option A
  last [] = none
  last (x ∷ []) = some x
  last (x ∷ y ∷ xs) = last (y ∷ xs)

module _ {ℓ} {A : Type ℓ} ⦃e : Eq A⦄ where
  unfoldable pub list_beq : List A → List A → Bool
  list_beq [] [] = true
  list_beq (x ∷ xs) (y ∷ ys) = x == y && list_beq xs ys
  list_beq _ _ = false

  -- `s.strip_prefix(p)`, the prefix first
  unfoldable pub strip_prefix : List A → List A → Option (List A)
  strip_prefix [] s = some s
  strip_prefix (p ∷ ps) [] = none
  strip_prefix (p ∷ ps) (x ∷ xs) = if p == x then strip_prefix ps xs else none

  -- `s.starts_with(p)`, the prefix first
  unfoldable pub starts_with : List A → List A → Bool
  starts_with p s = is_some (strip_prefix p s)

  -- `s.contains(p)` for a nonempty `p`
  unfoldable pub contains : List A → List A → Bool
  unfolding starts_with strip_prefix
  contains p [] = false
  contains p (x ∷ xs) = starts_with p (x ∷ xs) || contains p xs

  pub strip_prefix-append : (p s r : List A) → strip_prefix p s ≡ some r → s ≡ p ++ r
  unfolding strip_prefix
  strip_prefix-append [] s r h = cc
  strip_prefix-append (p ∷ ps) [] r h = cc
  strip_prefix-append (p ∷ ps) (x ∷ xs) r h =
      ground (arith, e.beq_iff p x, strip_prefix-append ps xs r)

  pub append-strip_prefix : (p r : List A) → strip_prefix p (p ++ r) ≡ some r
  unfolding strip_prefix
  append-strip_prefix [] r = refl
  append-strip_prefix (p ∷ ps) r = ground (arith, e.beq_iff p p, append-strip_prefix ps r)

  pub list_beq_iff : (xs ys : List A) → (list_beq xs ys ≡ true) ↔ (xs ≡ ys)
  unfolding list_beq
  list_beq_iff [] [] = ground arith
  list_beq_iff [] (y ∷ ys) = ground arith
  list_beq_iff (x ∷ xs) [] = ground arith
  list_beq_iff (x ∷ xs) (y ∷ ys) = ground (arith, e.beq_iff x y, list_beq_iff xs ys)
