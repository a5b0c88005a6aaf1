-- ===== src/Base/Int.antt =====
-- The signed integers that the code keeps whole (exit codes, pids).
use Prim.Native.Nat.{ℕ, zero, suc}
use mathlib.Core.Bool.{Bool, true, false}
use mathlib.Core.Path.{◌≡◌, refl}
use native.Mathlib.Omega.{arith}
use saki_cli.Base.Tests.{ltb, ◌==◌}

-- `negsuc n` is -(n + 1).
pub data ℤ : Type 0 where
  pos : ℕ → ℤ
  negsuc : ℕ → ℤ

-- `n == 0`.
abbrev pub is_zero : ℤ → Bool
is_zero (pos zero) = true
is_zero (pos (suc n)) = false
is_zero (negsuc n) = false

-- `n > 1`.
abbrev pub gt_one : ℤ → Bool
gt_one (pos n) = ltb 1 n
gt_one (negsuc n) = false

abbrev pub minus_one : ℤ
minus_one = negsuc 0

-- `<`.
abbrev pub ltz : ℤ → ℤ → Bool
ltz (pos a) (pos b) = ltb a b
ltz (pos a) (negsuc b) = false
ltz (negsuc a) (pos b) = true
ltz (negsuc a) (negsuc b) = ltb b a

pub ltz_asym : (a b : ℤ) → ltz a b ≡ true → ltz b a ≡ false
ltz_asym (pos a) (pos b) h = ground arith
ltz_asym (pos a) (negsuc b) h = ground arith
ltz_asym (negsuc a) (pos b) h = refl
ltz_asym (negsuc a) (negsuc b) h = ground arith

-- `a <= b` and `b <= c` give `a <= c`.
pub ltz_trans : (a b c : ℤ) → ltz b a ≡ false → ltz c b ≡ false → ltz c a ≡ false
ltz_trans (pos a) (pos b) (pos c) h g = ground arith
ltz_trans (pos a) (pos b) (negsuc c) h g = ground arith
ltz_trans (pos a) (negsuc b) c h g = ground arith
ltz_trans (negsuc a) (pos b) (pos c) h g = refl
ltz_trans (negsuc a) (pos b) (negsuc c) h g = ground arith
ltz_trans (negsuc a) (negsuc b) (pos c) h g = refl
ltz_trans (negsuc a) (negsuc b) (negsuc c) h g = ground arith

pub ltz_irrefl : (a : ℤ) → ltz a a ≡ false
ltz_irrefl (pos a) = ground arith
ltz_irrefl (negsuc a) = ground arith

-- `==`.
abbrev pub eqz : ℤ → ℤ → Bool
eqz (pos a) (pos b) = a == b
eqz (pos a) (negsuc b) = false
eqz (negsuc a) (pos b) = false
eqz (negsuc a) (negsuc b) = a == b

pub eqz_refl : (a : ℤ) → eqz a a ≡ true
eqz_refl (pos a) = ground arith
eqz_refl (negsuc a) = ground arith
