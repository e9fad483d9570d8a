-- ===== src/Prelude/Int.antt =====
-- Go's `int` where only its order and equality matter. `negsuc n` is -(n + 1).
use Prim.Native.Nat.{ℕ}
use mathlib.Core.Path.{◌≡◌}
use mathlib.Core.Bool.{Bool, true, false}
use native.Mathlib.Omega.{arith}
use go_cty.Prelude.Tests.{ltb, nat_beq, Equatable}

pub data ℤ : Type 0 where
  pos : ℕ → ℤ
  negsuc : ℕ → ℤ

abbrev pub ltb_ℤ : ℤ → ℤ → Bool
ltb_ℤ (pos a) (pos b) = ltb a b
ltb_ℤ (pos a) (negsuc b) = false
ltb_ℤ (negsuc a) (pos b) = true
ltb_ℤ (negsuc a) (negsuc b) = ltb b a

abbrev pub beq_ℤ : ℤ → ℤ → Bool
beq_ℤ (pos a) (pos b) = nat_beq a b
beq_ℤ (negsuc a) (negsuc b) = nat_beq a b
beq_ℤ _ _ = false

pub beq_ℤ_sound : (a b : ℤ) → beq_ℤ a b ≡ true → a ≡ b
beq_ℤ_sound (pos a) (pos b) h = ground arith
beq_ℤ_sound (negsuc a) (negsuc b) h = ground arith
beq_ℤ_sound (pos a) (negsuc b) h = ground arith
beq_ℤ_sound (negsuc a) (pos b) h = ground arith

pub beq_ℤ_refl : (a b : ℤ) → a ≡ b → beq_ℤ a b ≡ true
beq_ℤ_refl (pos a) (pos b) h = ground arith
beq_ℤ_refl (negsuc a) (negsuc b) h = ground arith
beq_ℤ_refl (pos a) (negsuc b) h = ground arith
beq_ℤ_refl (negsuc a) (pos b) h = ground arith

instance abbrev pub int_eq : Equatable ℤ
int_eq = record { test = beq_ℤ; test_iff = λ a b. (beq_ℤ_sound a b, beq_ℤ_refl a b) }
