-- ===== src/Prelude/Text.antt =====
-- Python's `str` as the list of its code points, with the string methods that the program calls.
use Prim.Native.Char.{code}
use Prim.Native.Nat.{ℕ, ◌+◌}
use Prim.Native.String.{String}
use mathlib.Core.Path.{◌≡◌, refl}
use mathlib.Core.Bool.{Bool, true, false, ◌||◌, ◌&&◌}
use mathlib.Core.List.{List, [], ◌∷◌, map}
use matryca_plumber.Prelude.Tests.{leb, nat_beq, if◌then◌else◌}
use matryca_plumber.Prelude.Lists.{All}
use matryca_plumber.Prelude.Equality.{Eq, list_beq, list_beq_iff, nat_eq}

abbrev pub Text : Type 0
Text = List ℕ

instance abbrev pub text_eq : Eq Text
text_eq = record { same = list_beq; decides = list_beq_iff }

-- The text of a literal.
abbrev pub text : String → Text
text String.[] = []
text (String.◌∷◌ c s) = code c ∷ text s

-- `not s`
abbrev pub is_empty {ℓ} : {A : Type ℓ} → List A → Bool
is_empty [] = true
is_empty (x ∷ xs) = false

-- The code points for which `str.isspace` holds.
unfoldable pub is_space : ℕ → Bool
is_space c =
    (leb 9 c && leb c 13)
    || (leb 28 c && leb c 32)
    || nat_beq c 133
    || nat_beq c 160
    || nat_beq c 5760
    || (leb 8192 c && leb c 8202)
    || nat_beq c 8232
    || nat_beq c 8233
    || nat_beq c 8239
    || nat_beq c 8287
    || nat_beq c 12288

unfoldable pub lstrip : Text → Text
lstrip [] = []
lstrip (c ∷ s) = let rest = lstrip s in elim (is_space c) [ true ↦ rest | false ↦ c ∷ s ]

-- A code point before a stripped rest: dropped if it is white space at the end.
unfoldable pub rstrip_before : ℕ → Text → Text
rstrip_before c [] = if is_space c then [] else c ∷ []
rstrip_before c (d ∷ s) = c ∷ d ∷ s

unfoldable pub rstrip : Text → Text
unfolding rstrip_before
rstrip [] = []
rstrip (c ∷ s) = rstrip_before c (rstrip s)

unfoldable pub strip : Text → Text
unfolding lstrip rstrip is_space
strip s = rstrip (lstrip s)

-- `str.lower` of the ASCII letters and of the Kelvin sign. No other code point becomes a text of
-- ASCII letters, so a comparison of the result with an ASCII word is that of the source.
unfoldable pub lower_code : ℕ → ℕ
lower_code c = if leb 65 c && leb c 90 then c + 32 else if nat_beq c 8490 then 107 else c

unfoldable pub lower : Text → Text
unfolding lower_code
lower = map lower_code

-- No code point is white space.
abbrev pub HasNoSpace : Text → Type 0
HasNoSpace = All (λ c. is_space c ≡ false)

lstrip-HasNoSpace : (s : Text) → HasNoSpace s → lstrip s ≡ s
unfolding lstrip
lstrip-HasNoSpace [] h = refl
lstrip-HasNoSpace (c ∷ s) h = rw (h.0, lstrip)

rstrip_before-HasNoSpace : (c : ℕ) (s : Text) → is_space c ≡ false → rstrip_before c s ≡ c ∷ s
unfolding rstrip_before
rstrip_before-HasNoSpace c [] h = rw h
rstrip_before-HasNoSpace c (d ∷ s) h = refl

rstrip-HasNoSpace : (s : Text) → HasNoSpace s → rstrip s ≡ s
unfolding rstrip
rstrip-HasNoSpace [] h = refl
rstrip-HasNoSpace (c ∷ s) h = rw (rstrip-HasNoSpace s h.1) (rstrip_before-HasNoSpace c s h.0)

-- A text with no white space is its own `strip`.
pub strip-HasNoSpace : (s : Text) → HasNoSpace s → strip s ≡ s
strip-HasNoSpace s h = unfold strip in rw (lstrip-HasNoSpace s h) (rstrip-HasNoSpace s h)

strip_test : strip (text " a b ") ≡ text "a b"
unfolding strip
strip_test = refl

lower_test : lower (text "TrUe") ≡ text "true"
unfolding lower
lower_test = refl
