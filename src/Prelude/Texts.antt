-- ===== src/Prelude/Texts.antt =====
-- ASCII texts as lists of bytes, with what the source takes from the packages strings and strconv.
use Prim.Native.Nat.{ℕ, ◌+◌}
use Prim.Native.Char.{code}
use Prim.Native.String.{String, ◌++◌}
use mathlib.Core.Bool.{Bool, true, false, false≢true, ◌&&◌, ◌||◌}
use mathlib.Core.Path.{◌≡◌, refl, ap, sym, ◌∙◌}
use mathlib.Core.Logic.{◌↔◌}
use native.Mathlib.Omega.{arith}
use mathlib.Core.List.{List, [], ◌∷◌, map, reverse}
use resy_snipe.Prelude.Tests.{leb, ◌==◌, if◌then◌else◌}

abbrev pub Text : Type 0
Text = List ℕ

abbrev pub codes : String → Text
codes String.[] = []
codes (String.◌∷◌ c s) = code c ∷ codes s

abbrev pub text_eq : Text → Text → Bool
text_eq [] [] = true
text_eq (a ∷ xs) (b ∷ ys) = (a == b) && text_eq xs ys
text_eq _ _ = false

abbrev pub is_empty : Text → Bool
is_empty [] = true
is_empty (c ∷ cs) = false

-- Tab to carriage return, and the space.
abbrev pub is_space : ℕ → Bool
is_space c = (leb 9 c && leb c 13) || (c == 32)

unfoldable pub trim_left : Text → Text
trim_left [] = []
trim_left (c ∷ cs) = if is_space c then trim_left cs else c ∷ cs

-- strings.TrimSpace.
unfoldable pub trim_space : Text → Text
unfolding trim_left
trim_space s = reverse (trim_left (reverse (trim_left s)))

abbrev pub lower : ℕ → ℕ
lower c = if leb b'A' c && leb c b'Z' then c + 32 else c

-- strings.ToLower.
unfoldable pub to_lower : Text → Text
to_lower s = map lower s

abbrev pub has_prefix : Text → Text → Bool
has_prefix s [] = true
has_prefix [] (p ∷ ps) = false
has_prefix (c ∷ cs) (p ∷ ps) = (c == p) && has_prefix cs ps

-- strings.Contains of the bytes.
abbrev pub contains : Text → Text → Bool
contains [] sub = has_prefix [] sub
contains (c ∷ cs) sub = has_prefix (c ∷ cs) sub || contains cs sub

abbrev pub joined : String → String → String
joined a b = a ++ b

pub text_eq_refl : (t : Text) → text_eq t t ≡ true
text_eq_refl [] = refl
text_eq_refl (x ∷ xs) = ground (arith, text_eq_refl xs)

pub text_eq-eq : (s t : Text) → text_eq s t ≡ true → s ≡ t
text_eq-eq [] [] h = refl
text_eq-eq [] (b ∷ t) h = absurd (false≢true h)
text_eq-eq (a ∷ s) [] h = absurd (false≢true h)
text_eq-eq (a ∷ s) (b ∷ t) h =
    let heads : a ≡ b = ground (arith, h) in
    let tails = text_eq-eq s t (ground (arith, h)) in λ i. heads i ∷ tails i

pub text_eq_iff : (s t : Text) → (text_eq s t ≡ true) ↔ (s ≡ t)
text_eq_iff s t = (text_eq-eq s t, λ e. ap (text_eq s) (sym e) ∙ text_eq_refl s)
