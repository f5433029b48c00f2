-- ===== src/Prelude/Strokes.antt =====
-- A text for each number, for concrete keys.
use Prim.Native.Nat.{ℕ, zero, suc, ◌<◌}
use Prim.Native.String.{String, count, ◌++◌}
use mathlib.Core.Path.{◌≡◌, refl, sym, ap, ◌∙◌}
use mathlib.Core.Logic.{inl, inr}
use mathlib.Core.Bool.{true, false}
use native.Mathlib.Omega.{arith}
use text.Mathlib.Text.{◌==◌}
use text.Mathlib.TextEquality.{eq_iff}
use text.Mathlib.TextLemmas.{length-append}
use dragnet.Prelude.Tests.{Bool-cases}

-- one stroke for each unit
unfoldable pub strokes : ℕ → String
strokes zero = ""
strokes (suc n) = "|" ++ strokes n

count-strokes : (n : ℕ) → count (strokes n) ≡ n
unfolding strokes
count-strokes zero = refl
count-strokes (suc n) = omega (arith, length-append "|" (strokes n), count-strokes n)

pub strokes-apart : (i j : ℕ) → (strokes i == strokes j) ≡ true → i ≡ j
strokes-apart i j same =
    sym (count-strokes i) ∙ (ap count ((eq_iff (strokes i) (strokes j)).0 same) ∙ count-strokes j)

pub strokes-lt : (i j : ℕ) → i < j → (strokes i == strokes j) ≡ false
strokes-lt i j less = elim (Bool-cases (strokes i == strokes j)) [
  | inl same ↦ ground (arith, less, strokes-apart i j same)
  | inr other ↦ other
]
