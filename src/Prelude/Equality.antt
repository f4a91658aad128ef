-- ===== src/Prelude/Equality.antt =====
-- `PartialEq` as an interface: a Boolean test that decides equality.
use mathlib.Core.Logic.{◌↔◌}
use mathlib.Core.Bool.{Bool, true, false}
use Prim.Native.Nat.{ℕ, compare, Ordering}
use Prim.Native.String.{String}
use native.Mathlib.Omega.{arith}
use mathlib.Core.Path.{◌≡◌, refl, ap}
use aw_server_plus.Prelude.Int.{ℤ, pos, negsuc}
use text.Mathlib.Text.{◌==◌ as str_eq}
use text.Mathlib.TextEquality.{eq_iff}

abbrev pub nat_beq : ℕ → ℕ → Bool
nat_beq m n = elim (compare m n) [ Ordering.eq ↦ true | _ ↦ false ]

pub nat_beq_iff : (m n : ℕ) → (nat_beq m n ≡ true) ↔ (m ≡ n)
nat_beq_iff m n = ground arith

pub record Eq {ℓ} (T : Type ℓ) : Type ℓ where
  pub beq : T → T → Bool
  pub beq_iff : (x y : T) → (beq x y ≡ true) ↔ (x ≡ y)

-- The strings come first: most of the program's keys are strings.
instance abbrev pub string_eq : Eq String
string_eq = record { beq = str_eq; beq_iff = eq_iff }

instance abbrev pub nat_eq : Eq ℕ
nat_eq = record { beq = nat_beq; beq_iff = nat_beq_iff }

infix 50 ◌==◌
abbrev pub ◌==◌ {ℓ} : {T : Type ℓ} ⦃by : Eq T⦄ → T → T → Bool
◌==◌ ⦃by⦄ x y = by.beq x y

abbrev pub int_beq : ℤ → ℤ → Bool
int_beq (pos m) (pos n) = nat_beq m n
int_beq (negsuc m) (negsuc n) = nat_beq m n
int_beq _ _ = false

pub int_beq_iff : (a b : ℤ) → (int_beq a b ≡ true) ↔ (a ≡ b)
int_beq_iff (pos m) (pos n) = (λ h. ap pos ((nat_beq_iff m n).0 h), λ e. (nat_beq_iff m n).1 (cc e))
int_beq_iff (negsuc m) (negsuc n) =
    (λ h. ap negsuc ((nat_beq_iff m n).0 h), λ e. (nat_beq_iff m n).1 (cc e))
int_beq_iff (pos m) (negsuc n) = (λ h. cc, λ e. cc)
int_beq_iff (negsuc m) (pos n) = (λ h. cc, λ e. cc)

instance abbrev pub int_eq : Eq ℤ
int_eq = record { beq = int_beq; beq_iff = int_beq_iff }

pub beq_sym {ℓ} : {T : Type ℓ} ⦃by : Eq T⦄ (x y : T) → (x == y) ≡ (y == x)
beq_sym ⦃by⦄ x y = ground (arith, by.beq_iff x y, by.beq_iff y x)

pub beq_refl {ℓ} : {T : Type ℓ} ⦃by : Eq T⦄ (x : T) → (x == x) ≡ true
beq_refl ⦃by⦄ x = (by.beq_iff x x).1 refl
