-- ===== src/Prelude/Equality.antt =====
-- Equality tests as an interface, with instances for numbers, texts and byte strings.
use Prim.Native.Nat.{ℕ}
use Prim.Native.String.{String}
use mathlib.Core.Path.{◌≡◌, refl}
use mathlib.Core.Logic.{◌↔◌}
use mathlib.Core.Bool.{Bool, true, false, ◌&&◌}
use mathlib.Core.List.{List, [], ◌∷◌}
use native.Mathlib.Omega.{arith}
use text.Mathlib.Text.{◌==◌ as str_eq}
use text.Mathlib.TextEquality.{eq_iff}
use privex.Prelude.Tests.{nat_beq}

-- an equality test that decides equality
pub record Eq {ℓ} (K : Type ℓ) : Type ℓ where
  pub same : K → K → Bool
  pub same_iff : (x y : K) → (same x y ≡ true) ↔ (x ≡ y)

infix 50 ◌==◌
abbrev pub ◌==◌ {ℓ} : {K : Type ℓ} ⦃e : Eq K⦄ → K → K → Bool
◌==◌ ⦃e⦄ = e.same

pub nat_beq_iff : (a b : ℕ) → (nat_beq a b ≡ true) ↔ (a ≡ b)
nat_beq_iff a b = ground arith

-- byte by byte
abbrev pub list_beq : List ℕ → List ℕ → Bool
list_beq [] [] = true
list_beq [] (y ∷ ys) = false
list_beq (x ∷ xs) [] = false
list_beq (x ∷ xs) (y ∷ ys) = nat_beq x y && list_beq xs ys

list_beq_of_eq : (xs : List ℕ) → list_beq xs xs ≡ true
list_beq_of_eq [] = refl
list_beq_of_eq (x ∷ xs) = ground (arith, list_beq_of_eq xs)

eq_of_list_beq : (xs ys : List ℕ) → list_beq xs ys ≡ true → xs ≡ ys
eq_of_list_beq [] [] h = refl
eq_of_list_beq [] (y ∷ ys) h = cc
eq_of_list_beq (x ∷ xs) [] h = cc
eq_of_list_beq (x ∷ xs) (y ∷ ys) h = ground (arith, eq_of_list_beq xs ys)

pub list_beq_iff : (xs ys : List ℕ) → (list_beq xs ys ≡ true) ↔ (xs ≡ ys)
list_beq_iff xs ys = (eq_of_list_beq xs ys, λ e. rw e (list_beq_of_eq ys))

instance abbrev pub bytes_eq : Eq (List ℕ)
bytes_eq = record { same = list_beq; same_iff = list_beq_iff }

instance abbrev pub string_eq : Eq String
string_eq = record { same = str_eq; same_iff = eq_iff }

instance abbrev pub nat_eq : Eq ℕ
nat_eq = record { same = nat_beq; same_iff = nat_beq_iff }

pub beq_refl {ℓ} : {A : Type ℓ} ⦃e : Eq A⦄ (a : A) → (a == a) ≡ true
beq_refl ⦃e⦄ a = (e.same_iff a a).1 refl

pub eq_of_beq {ℓ} : {A : Type ℓ} ⦃e : Eq A⦄ (a b : A) → (a == b) ≡ true → a ≡ b
eq_of_beq ⦃e⦄ a b = (e.same_iff a b).0
