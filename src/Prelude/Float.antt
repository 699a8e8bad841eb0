-- ===== src/Prelude/Float.antt =====
-- Python's floats as an interface: the operations that the program uses, and the laws that hold
-- of them where no value is a NaN.
use Prim.Native.Nat.{ℕ, ◌+◌, ◌*◌, ◌/◌}
use mathlib.Core.Path.{◌≡◌, refl}
use mathlib.Core.Bool.{Bool, true, false, not}
use mathlib.Core.List.{List, [], ◌∷◌}
use native.Mathlib.Omega.{arith}
use sara_omega.Prelude.Tests.{ltb, leb, if◌then◌else◌}

pub record Float : Type 1 where
  pub Num : Type 0
  -- the literal n / 10000
  pub lit : ℕ → Num
  -- `float(n)`
  pub of_int : ℕ → Num
  pub add : Num → Num → Num
  -- `sum(xs)`, which is compensated from Python 3.12 on and is no chain of additions
  pub sum : List Num → Num
  pub mul : Num → Num → Num
  pub div : Num → Num → Num
  -- `math.log10` and `round(x, 4)`
  pub log10 : Num → Num
  pub round4 : Num → Num
  -- `a < b` and `a <= b`
  pub lt : Num → Num → Bool
  pub le : Num → Num → Bool

-- Python's `min(a, b)` and `max(a, b)`: the first argument unless the second is smaller, larger.
abbrev pub fmin : (F : Float) → F.Num → F.Num → F.Num
fmin F a b = if F.lt b a then b else a

abbrev pub fmax : (F : Float) → F.Num → F.Num → F.Num
fmax F a b = if F.lt a b then b else a

-- Summands that are no smaller one by one, with some more that are not negative.
pub data Below (F : Float) : List F.Num → List F.Num → Type 0 where
  done : Below F [] []
  keep :
      {x y : F.Num} {xs ys : List F.Num}
      → F.le x y ≡ true
      → Below F xs ys
      → Below F (x ∷ xs) (y ∷ ys)
  more :
      {y : F.Num} {xs ys : List F.Num}
      → F.le (F.lit 0) y ≡ true
      → Below F xs ys
      → Below F xs (y ∷ ys)

-- Comparison is a total order, and sums and roundings are monotone.
pub record Lawful (F : Float) : Type 0 where
  pub le_refl : (a : F.Num) → F.le a a ≡ true
  pub le_trans : (a b c : F.Num) → F.le a b ≡ true → F.le b c ≡ true → F.le a c ≡ true
  pub le_total : (a b : F.Num) → F.le a b ≡ false → F.le b a ≡ true
  pub lt-eq-not-le : (a b : F.Num) → F.lt a b ≡ not (F.le b a)
  pub sum_mono : (xs ys : List F.Num) → Below F xs ys → F.le (F.sum xs) (F.sum ys) ≡ true
  pub round4_mono : (a b : F.Num) → F.le a b ≡ true → F.le (F.round4 a) (F.round4 b) ≡ true
  pub round4-one : F.round4 (F.lit 10000) ≡ F.lit 10000
  pub lit_mono : (m n : ℕ) → leb m n ≡ true → F.le (F.lit m) (F.lit n) ≡ true

-- The number of decimal digits of `n`, less one, on fuel.
abbrev digits : ℕ → ℕ → ℕ
digits Prim.Native.Nat.zero n = 0
digits (Prim.Native.Nat.suc f) n = let rest = digits f (n / 10) in if ltb n 10 then 0 else rest + 1

abbrev sum_ℕ : List ℕ → ℕ
sum_ℕ [] = 0
sum_ℕ (x ∷ xs) = x + sum_ℕ xs

-- Values in units of 1/10000, rounded down: the operations run, and the laws hold.
abbrev pub fixed : Float
fixed = record {
  Num = ℕ;
  lit = λ n. n;
  of_int = λ n. n * 10000;
  add = λ a b. a + b;
  sum = sum_ℕ;
  mul = λ a b. a * b / 10000;
  div = λ a b. a * 10000 / b;
  log10 = λ a. digits 20 (a / 10000) * 10000;
  round4 = λ a. a;
  lt = ltb;
  le = leb;
}

sum_ℕ_mono : (xs ys : List ℕ) → Below fixed xs ys → leb (sum_ℕ xs) (sum_ℕ ys) ≡ true
sum_ℕ_mono [] [] done = refl
sum_ℕ_mono (x ∷ xs) [] b = elim b [ ]
sum_ℕ_mono (x ∷ xs) (y ∷ ys) (keep h b) = ground (arith, sum_ℕ_mono xs ys b)
sum_ℕ_mono xs (y ∷ ys) (more h b) = ground (arith, sum_ℕ_mono xs ys b)

pub fixed-Lawful : Lawful fixed
fixed-Lawful = record {
  le_refl = λ a. ground arith;
  le_trans = λ a b c h k. ground arith;
  le_total = λ a b h. ground arith;
  lt-eq-not-le = λ a b. ground arith;
  sum_mono = sum_ℕ_mono;
  round4_mono = λ a b h. h;
  round4-one = refl;
  lit_mono = λ m n h. h;
}
