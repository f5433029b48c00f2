-- ===== src/Prelude/Text.antt =====
-- JavaScript's `trim`, `toLowerCase` and `includes` on texts. `lower_case` changes the letters A to Z;
-- letters outside ASCII are left as they are.
use Prim.Native.Nat.{ℕ}
use Prim.Native.Char.{Char, code}
use Prim.Native.String.{String}
use mathlib.Core.Bool.{Bool, ◌&&◌, ◌||◌}
use mathlib.Core.Bool.{false}
use mathlib.Core.Logic.{inl, inr}
use mathlib.Core.Path.{◌≡◌, refl, ap, ◌∙◌}
use text.Mathlib.Text.{◌==◌, find?}
use dragnet.Prelude.Tests.{eqb, leb, if◌then◌else◌, is_some, Bool-cases}

-- WhiteSpace and LineTerminator of the language's standard
is_space : ℕ → Bool
is_space c =
    (leb 9 c && leb c 13)
    || eqb c 32
    || eqb c 160
    || eqb c 5760
    || (leb 8192 c && leb c 8202)
    || eqb c 8232
    || eqb c 8233
    || eqb c 8239
    || eqb c 8287
    || eqb c 12288
    || eqb c 65279

trim_start : String → String
unfolding is_space
trim_start String.[] = ""
trim_start (String.◌∷◌ c s) =
    let rest = trim_start s in if is_space (code c) then rest else String.◌∷◌ c s

trim_end : String → String
unfolding is_space
trim_end String.[] = ""
trim_end (String.◌∷◌ c s) =
    let rest = trim_end s in if is_space (code c) && rest == "" then "" else String.◌∷◌ c rest

unfoldable pub trim : String → String
unfolding trim_start trim_end
trim s = trim_end (trim_start s)

-- the text is empty or starts with something else than space
abbrev StartsClean : String → Type 0
StartsClean String.[] = Unit
StartsClean (String.◌∷◌ c s) = is_space (code c) ≡ false

trim_start-StartsClean : (s : String) → StartsClean (trim_start s)
unfolding trim_start
trim_start-StartsClean String.[] = tt
trim_start-StartsClean (String.◌∷◌ c s) = elim (Bool-cases (is_space (code c))) [
  | inl space ↦ rw (space, trim_start) (trim_start-StartsClean s)
  | inr other ↦ rw (other, trim_start) other
]

trim_end-StartsClean : (s : String) → StartsClean s → StartsClean (trim_end s)
unfolding trim_end
trim_end-StartsClean String.[] h = tt
trim_end-StartsClean (String.◌∷◌ c s) h = rw (h, trim_end) h

trim_start_clean : (s : String) → StartsClean s → trim_start s ≡ s
unfolding trim_start
trim_start_clean String.[] h = refl
trim_start_clean (String.◌∷◌ c s) h = rw (h, trim_start) refl

trim_end_idem : (s : String) → trim_end (trim_end s) ≡ trim_end s
unfolding trim_end
trim_end_idem String.[] = refl
trim_end_idem (String.◌∷◌ c s) = elim (Bool-cases (is_space (code c) && trim_end s == "")) [
  | inl gone ↦ rw (gone, trim_end) refl
  | inr kept ↦ rw (kept, trim_end, trim_end_idem s, kept) refl
]

pub trim_idem : (s : String) → trim (trim s) ≡ trim s
unfolding trim
trim_idem s =
    let clean = trim_end-StartsClean (trim_start s) (trim_start-StartsClean s) in
    ap trim_end (trim_start_clean (trim_end (trim_start s)) clean) ∙ trim_end_idem (trim_start s)

-- the letter that stands in the second text where `c` stands in the first
swap_letter : String → String → Char → Char
swap_letter (String.◌∷◌ u us) (String.◌∷◌ l ls) c =
    let rest = swap_letter us ls c in if eqb (code u) (code c) then l else rest
swap_letter _ _ c = c

unfoldable pub lower_case : String → String
unfolding swap_letter
lower_case String.[] = ""
lower_case (String.◌∷◌ c s) =
    String.◌∷◌ (swap_letter "ABCDEFGHIJKLMNOPQRSTUVWXYZ" "abcdefghijklmnopqrstuvwxyz" c)
      (lower_case s)

unfoldable pub includes : String → String → Bool
includes s part = is_some (find? s part)
