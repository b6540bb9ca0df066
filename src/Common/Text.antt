-- ===== src/Common/Text.antt =====
-- Strings as lists of character codes, with the methods of `str` that the code calls.
use Prim.Native.Nat.{ℕ}
use mathlib.Core.Path.{◌≡◌, refl}
use native.Mathlib.Omega.{arith}
use mathlib.Core.Bool.{Bool, true, false, ◌&&◌, ◌||◌}
use mathlib.Core.Option.{Option, none, some}
use mathlib.Core.List.{List, [], ◌∷◌}
use agent_repository.Common.Tests.{◌==◌, if◌then◌else◌}

abbrev pub Text : Type 0
Text = List ℕ

unfoldable pub eq_text : Text → Text → Bool
eq_text [] [] = true
eq_text [] (d ∷ t) = false
eq_text (c ∷ s) [] = false
eq_text (c ∷ s) (d ∷ t) = c == d && eq_text s t

-- `t.startswith(p)`, as what is left of `t`.
unfoldable pub strip_prefix : Text → Text → Option Text
strip_prefix [] t = some t
strip_prefix (c ∷ p) [] = none
strip_prefix (c ∷ p) (d ∷ t) = let rest = strip_prefix p t in if c == d then rest else none

unfoldable pub starts_with : Text → Text → Bool
unfolding strip_prefix
starts_with p t = elim (strip_prefix p t) [ some rest ↦ true | none ↦ false ]

-- `p in t`
unfoldable pub is_infix : Text → Text → Bool
unfolding starts_with
is_infix p [] = starts_with p []
is_infix p (c ∷ t) = let later = is_infix p t in starts_with p (c ∷ t) || later

-- `t.split(c, 1)[0]`
unfoldable pub before : ℕ → Text → Text
before c [] = []
before c (d ∷ t) = let rest = before c t in if c == d then [] else d ∷ rest

-- `t.split(c, 1)`, where it has two parts.
unfoldable pub split_once : ℕ → Text → Option (Text × Text)
split_once c [] = none
split_once c (d ∷ t) =
    let rest = split_once c t in
    if c == d then some ([], t) else elim rest [ some (a, b) ↦ some (d ∷ a, b) | none ↦ none ]

-- `t.rstrip(c)` and `t.lstrip(c)`
unfoldable pub rstrip : ℕ → Text → Text
rstrip c [] = []
rstrip c (d ∷ t) = elim (rstrip c t) [
  | [] ↦ if c == d then [] else d ∷ []
  | e ∷ rest ↦ d ∷ e ∷ rest
]

unfoldable pub lstrip : ℕ → Text → Text
lstrip c [] = []
lstrip c (d ∷ t) = let rest = lstrip c t in if c == d then rest else d ∷ t

unfoldable pub is_empty : Text → Bool
is_empty [] = true
is_empty (c ∷ t) = false

pub eq_text_refl : (t : Text) → eq_text t t ≡ true
unfolding eq_text
eq_text_refl [] = refl
eq_text_refl (c ∷ t) = ground (arith, eq_text_refl t)
