-- ===== src/Prelude/Classes.antt =====
-- Decidable equality as an interface, with its instances for numbers and texts.
use Prim.Native.String.{String}
use mathlib.Core.Path.{◌≡◌, refl}
use mathlib.Core.Logic.{◌↔◌, ◌⊎◌, inl, inr, ◌≢◌}
use mathlib.Core.Bool.{Bool, true, false}
use text.Mathlib.Text.{◌==◌ as str_eq}
use text.Mathlib.TextEquality.{eq_iff}
use Prim.Native.Nat.{ℕ}
use mlx_serving.Prelude.Tests.{Bool-cases, eqb, eqb_iff}

-- A test of two values, and that it decides their equality.
pub record Eq {ℓ} (A : Type ℓ) : Type ℓ where
  pub test : A → A → Bool
  pub test_iff : (x y : A) → (test x y ≡ true) ↔ (x ≡ y)

instance abbrev pub string_eq : Eq String
string_eq = record { test = str_eq; test_iff = eq_iff }

instance abbrev pub nat_eq : Eq ℕ
nat_eq = record { test = eqb; test_iff = eqb_iff }

-- `===`, at each type that has such a test.
infix 50 ◌==◌
abbrev pub ◌==◌ {ℓ} : {A : Type ℓ} ⦃t : Eq A⦄ → A → A → Bool
◌==◌ ⦃t⦄ x y = t.test x y

module _ {ℓ} {A : Type ℓ} ⦃e : Eq A⦄ where
  pub ==_refl : (a : A) → (a == a) ≡ true
  ==_refl a = (e.test_iff a a).1 refl

  -- To split on a comparison: its value, with what it says of the two sides.
  pub ==-cases : (a b : A) → (((a == b) ≡ true) × (a ≡ b)) ⊎ (((a == b) ≡ false) × (a ≢ b))
  ==-cases a b = elim (Bool-cases (a == b)) [
    | inl h ↦ inl (h, (e.test_iff a b).0 h)
    | inr h ↦ inr (h, λ q. false-ne-true ((e.test_iff a b).1 q) h)
  ]
    where
      false-ne-true : (a == b) ≡ true → (a == b) ≡ false → ⊥
      false-ne-true p q = cc

  pub ==_sym : (a b : A) → (a == b) ≡ (b == a)
  ==_sym a b = elim (==-cases a b) [
    | inl p ↦ elim (==-cases b a) [ inl q ↦ cc | inr q ↦ absurd (q.1 (cc)) ]
    | inr p ↦ elim (==-cases b a) [ inl q ↦ absurd (p.1 (cc)) | inr q ↦ cc ]
  ]
