-- ===== src/Prelude/Decimal.antt =====
-- `str(n)` of a non-negative integer and `int(s)`: an optional sign, then decimal digits with
-- single underscores between them. The digits outside ASCII that `int` takes too are not modelled.
use matryca_plumber.Prelude.{
  ℕ, zero, suc, ◌+◌, ◌-◌, ◌*◌, ◌/◌, ◌%◌, ◌<◌, ◌≡◌, refl, Bool, false, ◌&&◌, Option, none, some, [],
  ◌∷◌, arith, ltb, leb, nat_beq, if◌then◌else◌,
}
use matryca_plumber.Prelude.Text.{
  Text, text, strip, is_space, is_empty, HasNoSpace, strip-HasNoSpace,
}

-- A Python integer: `negsuc n` is -(n + 1).
pub data ℤ : Type 0 where
  pos : ℕ → ℤ
  negsuc : ℕ → ℤ

-- `max(0, z)`
abbrev pub clamp_zero : ℤ → ℕ
clamp_zero (pos n) = n
clamp_zero (negsuc n) = 0

abbrev pub negate : ℕ → ℤ
negate zero = pos 0
negate (suc n) = negsuc n

is_digit : ℕ → Bool
is_digit c = leb 48 c && leb c 57

-- After a digit, and after an underscore.
mutual
  digits : ℕ → Text → Option ℕ
  digits acc [] = some acc
  digits acc (c ∷ s) =
      let next = digits (acc * 10 + (c - 48)) s in
      let grouped = after_underscore acc s in
      if is_digit c then next else if nat_beq c 95 then grouped else none

  after_underscore : ℕ → Text → Option ℕ
  after_underscore acc [] = none
  after_underscore acc (c ∷ s) =
      let next = digits (acc * 10 + (c - 48)) s in if is_digit c then next else none

-- The first digit is required.
first_digit : Text → Option ℕ
first_digit = after_underscore 0

signed : Text → Option ℤ
signed [] = none
signed (c ∷ s) =
    if nat_beq c 45
    then elim (first_digit s) [ none ↦ none | some n ↦ some (negate n) ]
    else if nat_beq c 43
    then elim (first_digit s) [ none ↦ none | some n ↦ some (pos n) ]
    else elim (first_digit (c ∷ s)) [ none ↦ none | some n ↦ some (pos n) ]

-- `int(s)`; `none` is the `ValueError`.
unfoldable pub int_of : Text → Option ℤ
unfolding signed first_digit digits after_underscore is_digit
int_of s = signed (strip s)

-- The digits of `n` before `rest`; the fuel is more than the value.
decimal : ℕ → ℕ → Text → Text
decimal zero n rest = rest
decimal (suc f) n rest =
    let more = decimal f (n / 10) ((48 + n % 10) ∷ rest) in
    if ltb n 10 then (48 + n) ∷ rest else more

unfoldable pub str : ℕ → Text
unfolding decimal
str n = decimal (suc n) n []

first_digit-decimal :
    (f n : ℕ) (rest : Text) → n < f → first_digit (decimal f n rest) ≡ digits n rest
unfolding first_digit decimal after_underscore digits is_digit
first_digit-decimal zero n rest h = absurd (omega arith)
first_digit-decimal (suc f) n rest h =
    ground (arith, first_digit-decimal f (n / 10) ((48 + n % 10) ∷ rest))

-- A text that begins with a digit has no sign.
signed-first_digit : (s : Text) (n : ℕ) → first_digit s ≡ some n → signed s ≡ some (pos n)
unfolding signed first_digit after_underscore is_digit
signed-first_digit [] n h = cc
signed-first_digit (c ∷ s) n h = ground arith

HasNoSpace-decimal : (f n : ℕ) (rest : Text) → HasNoSpace rest → HasNoSpace (decimal f n rest)
unfolding decimal is_space
HasNoSpace-decimal zero n rest h = h
HasNoSpace-decimal (suc f) n rest h =
    ground (arith, HasNoSpace-decimal f (n / 10) ((48 + n % 10) ∷ rest))

-- `int(str(n))` is `n`.
pub int_of-str : (n : ℕ) → int_of (str n) ≡ some (pos n)
unfolding int_of str digits
int_of-str n =
    rw (strip-HasNoSpace (decimal (suc n) n []) (HasNoSpace-decimal (suc n) n [] tt))
      (signed-first_digit (decimal (suc n) n []) n (first_digit-decimal (suc n) n [] (omega arith)))

pub HasNoSpace-str : (n : ℕ) → HasNoSpace (str n)
unfolding str
HasNoSpace-str n = HasNoSpace-decimal (suc n) n [] tt

is_empty-decimal : (f n c : ℕ) (rest : Text) → is_empty (decimal f n (c ∷ rest)) ≡ false
unfolding decimal
is_empty-decimal zero n c rest = refl
is_empty-decimal (suc f) n c rest =
    ground (arith, is_empty-decimal f (n / 10) (48 + n % 10) (c ∷ rest))

-- A decimal text has a digit.
pub is_empty-str : (n : ℕ) → is_empty (str n) ≡ false
unfolding str decimal
is_empty-str n = ground (arith, is_empty-decimal n (n / 10) (48 + n % 10) [])

str_test : str 1204 ≡ text "1204"
unfolding str
str_test = refl

int_test : int_of (text " -1_0 ") ≡ some (negsuc 9)
unfolding int_of strip
int_test = refl
