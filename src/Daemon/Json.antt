-- ===== src/Daemon/Json.antt =====
-- JSON as `json.loads` answers it, and Python's conversions of such a value (the calls of `int`,
-- `float`, `bool` and `str` in src/agent/daemon_state.py, `_coerce_int` of
-- src/agent/journey_log.py). Numbers are not negative; a float is a number of nanoseconds.
use matryca_plumber.Prelude.{
  ℕ, ◌*◌, ◌/◌, Bool, true, false, not, Option, none, some, ◌==◌, nat_eq, if◌then◌else◌,
}
use matryca_plumber.Prelude.Text.{Text, text_eq, is_empty}

abbrev pub second : ℕ
second = 1000000000

mutual
  pub data Json : Type 0 where
    null : Json
    truth : Bool → Json
    number : ℕ → Json
    decimal : ℕ → Json
    string : Text → Json
    array : Items → Json
    object : Fields → Json

  pub data Items : Type 0 where
    nil : Items
    cons : Json → Items → Items

  pub data Fields : Type 0 where
    end : Fields
    field : Text → Json → Fields → Fields

-- How Python reads a number from a text, and what `str` shows of a value that is no text.
pub record Python : Type 0 where
  pub int_of_text : Text → Option ℕ
  pub float_of_text : Text → Option ℕ
  pub shown : Json → Text

abbrev pub truth_number : Bool → ℕ
truth_number true = 1
truth_number false = 0

module _ (py : Python) where
  -- `none` is the `TypeError` or `ValueError`.
  abbrev pub to_int : Json → Option ℕ
  to_int (truth b) = some (truth_number b)
  to_int (number n) = some n
  to_int (decimal d) = some (d / second)
  to_int (string s) = py.int_of_text s
  to_int null = none
  to_int (array xs) = none
  to_int (object fs) = none

  abbrev pub to_float : Json → Option ℕ
  to_float (truth b) = some (truth_number b * second)
  to_float (number n) = some (n * second)
  to_float (decimal d) = some d
  to_float (string s) = py.float_of_text s
  to_float null = none
  to_float (array xs) = none
  to_float (object fs) = none

  abbrev pub to_text : Json → Text
  to_text (string s) = s
  to_text v = py.shown v

  -- `_coerce_int(value)`, whose default is 0.
  abbrev pub coerced : Option ℕ → ℕ
  coerced none = 0
  coerced (some n) = n

  abbrev pub coerce_int : Json → ℕ
  coerce_int (truth b) = truth_number b
  coerce_int (number n) = n
  coerce_int (decimal d) = d / second
  coerce_int (string s) = coerced (py.int_of_text s)
  coerce_int v = 0

abbrev pub to_bool : Json → Bool
to_bool null = false
to_bool (truth b) = b
to_bool (number n) = not (n == 0)
to_bool (decimal d) = not (d == 0)
to_bool (string s) = not (is_empty s)
to_bool (array nil) = false
to_bool (array (cons x xs)) = true
to_bool (object end) = false
to_bool (object (field k v fs)) = true

-- `payload.get(key)` and `payload.get(key, default)`.
abbrev pub get : Text → Fields → Option Json
get key end = none
get key (field k v fs) = if k == key then some v else get key fs

abbrev pub or_default : Json → Option Json → Json
or_default default none = default
or_default default (some v) = v

abbrev pub get_or : Json → Text → Fields → Json
get_or default key fields = or_default default (get key fields)
