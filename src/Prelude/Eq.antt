-- ===== src/Prelude/Eq.antt =====
-- `PartialEq` as an interface: a Boolean test that decides equality, and its instances.
use mathlib.Core.Path.{◌≡◌, refl}
use mathlib.Core.Logic.{◌↔◌}
use mathlib.Core.Bool.{Bool, true, false}
use Prim.Native.Nat.{ℕ}
use Prim.Native.String.{String}
use text.Mathlib.Text.{◌==◌ as str_eq}
use text.Mathlib.TextEquality.{eq_iff}
use run_on_mine.Prelude.Tests.{◌==◌ as nat_beq, ==_iff}

pub record Eq {α} (T : Type α) : Type α where
  pub beq : (left right : T) → Bool
  pub beq_iff : (left right : T) → (beq left right ≡ true) ↔ (left ≡ right)

abbrev pub holds {α} : {P : Type α} → Dec P → Bool
holds (no p) = false
holds (yes p) = true

instance abbrev pub string_eq : Eq String
string_eq = record { beq_iff = eq_iff; beq = str_eq }

pub holds_iff {α} : {P : Type α} (d : Dec P) → (holds d ≡ true) ↔ P
holds_iff (no p) = (λ h. cc, λ q. absurd (p q))
holds_iff (yes p) = (λ _. p, λ _. refl)

-- A derived `PartialEq` of a type whose equality is decidable.
abbrev pub discrete_eq {α} : {T : Type α} → Discrete T → Eq T
discrete_eq dec = record { beq = λ a b. holds (dec a b); beq_iff = λ a b. holds_iff (dec a b) }

instance abbrev pub nat_eq : Eq ℕ
nat_eq = record { beq_iff = ==_iff; beq = nat_beq }

infix 50 ◌==◌
abbrev pub ◌==◌ {α} : {T : Type α} ⦃same : Eq T⦄ (left right : T) → Bool
◌==◌ ⦃same⦄ left right = same.beq left right
