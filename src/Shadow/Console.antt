-- ===== src/Shadow/Console.antt =====
-- Text that leaves the process: `sanitize_for_console` (src/utils/console_sanitize.py) and the
-- bounded error messages of the Shadow DB (src/shadow/state_api.py).
use matryca_plumber.Prelude.{
  ℕ, zero, suc, ◌-◌, ◌≤◌, ◌≡◌, refl, Bool, true, false, ◌&&◌, ◌||◌, not, Option, none, some, [],
  ◌∷◌, ◌++◌, length, take, arith, if◌then◌else◌, leb, nat_beq, length-append, length-take, keep,
  Bool-cases, some_inj, inl, inr, leb→le, ◌<◌,
}
use matryca_plumber.Prelude.Text.{Text, text, strip, is_empty, is_space, text_eq}

-- A parameter byte `[0-?]`, an intermediate byte `[ -/]` and a final byte `[@-~]`.
is_parameter : ℕ → Bool
is_parameter c = leb 48 c && leb c 63

is_intermediate : ℕ → Bool
is_intermediate c = leb 32 c && leb c 47

is_final : ℕ → Bool
is_final c = leb 64 c && leb c 126

-- The rest behind `[ -/]*[@-~]`, and behind `[0-?]*[ -/]*[@-~]`.
after_intermediates : Text → Option Text
after_intermediates [] = none
after_intermediates (c ∷ s) =
    let rest = after_intermediates s in
    if is_intermediate c then rest else if is_final c then some s else none

after_parameters : Text → Option Text
after_parameters [] = none
after_parameters (c ∷ s) =
    let rest = after_parameters s in if is_parameter c then rest else after_intermediates (c ∷ s)

-- The rest behind an escape sequence, of which ESC has been read.
after_escape : Text → Option Text
after_escape [] = none
after_escape (c ∷ s) =
    if (leb 64 c && leb c 90) || (leb 92 c && leb c 95)
    then some s
    else if nat_beq c 91
    then after_parameters s
    else none

-- `_ANSI_ESCAPE.sub("", text)`. A match is shorter than the fuel, the length of the text.
unfoldable pub strip_escapes : ℕ → Text → Text
unfolding after_escape after_parameters after_intermediates is_parameter is_intermediate is_final
strip_escapes zero s = s
strip_escapes (suc fuel) [] = []
strip_escapes (suc fuel) (c ∷ s) =
    let plain = c ∷ strip_escapes fuel s in
    if nat_beq c 27
    then elim (after_escape s) [ none ↦ plain | some rest ↦ strip_escapes fuel rest ]
    else plain

-- A control character that is dropped: all but tab, LF and CR, and DEL.
unfoldable pub is_control : ℕ → Bool
is_control c = leb c 8 || nat_beq c 11 || nat_beq c 12 || (leb 14 c && leb c 31) || nat_beq c 127

unfoldable pub sanitize_for_console : Text → Text
unfolding strip_escapes
sanitize_for_console s = keep (λ c. not (is_control c)) (strip_escapes (length s) s)

is_letter : ℕ → Bool
is_letter c = (leb 65 c && leb c 90) || (leb 97 c && leb c 122)

-- A text that begins with a code point that is no white space.
begins_visible : Text → Bool
begins_visible [] = false
begins_visible (c ∷ s) = not (is_space c)

-- A text `[^/\s]+/…`, of which `seen` says whether a code point has been read.
segment_then_slash : Bool → Text → Bool
segment_then_slash seen [] = false
segment_then_slash seen (c ∷ s) =
    let rest = segment_then_slash true s in
    if nat_beq c 47 then seen else if is_space c then false else rest

-- A match of `_ABS_FILESYSTEM_PATH` at the start: a drive path, a UNC path, or a POSIX path with a
-- directory.
path_at_start : Text → Bool
path_at_start [] = false
path_at_start (a ∷ []) = false
path_at_start (a ∷ b ∷ []) = nat_beq a 47 && segment_then_slash false (b ∷ [])
path_at_start (a ∷ b ∷ c ∷ s) =
    (is_letter a && nat_beq b 58 && nat_beq c 92 && begins_visible s)
    || (nat_beq a 92 && nat_beq b 92 && begins_visible (c ∷ s))
    || (nat_beq a 47 && segment_then_slash false (b ∷ c ∷ s))

-- `_ABS_FILESYSTEM_PATH.search(s)`
unfoldable pub has_absolute_path : Text → Bool
unfolding path_at_start is_letter begins_visible segment_then_slash is_space
has_absolute_path [] = false
has_absolute_path (c ∷ s) = path_at_start (c ∷ s) || has_absolute_path s

abbrev pub shadow_error_max_len : ℕ
shadow_error_max_len = 200

abbrev pub redacted_sync_error : Text
redacted_sync_error = text "Shadow sync error (path details redacted)"

-- `…`, U+2026.
abbrev pub ellipsis : Text
ellipsis = 8230 ∷ []

abbrev pub raw_or_empty : Option Text → Text
raw_or_empty none = []
raw_or_empty (some t) = t

-- A text cut at a limit, with an ellipsis.
unfoldable pub cut : ℕ → Text → Text
cut limit body = if leb (length body) limit then body else take (limit - 1) body ++ ellipsis

unfoldable pub bounded_error_message : Option Text → Option Text
bounded_error_message raw =
    let cleaned = sanitize_for_console (strip (raw_or_empty raw)) in
    if is_empty cleaned
    then none
    else if has_absolute_path cleaned
    then some redacted_sync_error
    else some (cut shadow_error_max_len cleaned)

path_test :
    (has_absolute_path (text "at /home/u/x") ≡ true) × (has_absolute_path (text "a/b /c") ≡ false)
unfolding has_absolute_path
path_test = (refl, refl)

pub length-cut : (limit : ℕ) (body : Text) → 0 < limit → length (cut limit body) ≤ limit
unfolding cut
length-cut limit body h = elim (Bool-cases (leb (length body) limit)) [
  | inl fits ↦ rw fits (leb→le _ _ fits)
  | inr long ↦
      rw (long, length-append (take (limit - 1) body) ellipsis, length-take (limit - 1) body)
        (omega arith)
]

is_empty-append : (a : Text) (c : ℕ) → is_empty (a ++ c ∷ []) ≡ false
is_empty-append [] c = refl
is_empty-append (d ∷ a) c = refl

is_empty-cut : (limit : ℕ) (body : Text) → is_empty body ≡ false → is_empty (cut limit body) ≡ false
unfolding cut
is_empty-cut limit body h = ground (arith, is_empty-append (take (limit - 1) body) 8230)

-- A public message has at most 200 code points and is not empty.
pub bounded_error_message_bounds :
    (raw : Option Text) (message : Text)
    → bounded_error_message raw ≡ some message
    → (length message ≤ 200) × (is_empty message ≡ false)
unfolding bounded_error_message
bounded_error_message_bounds raw message =
    bounds (sanitize_for_console (strip (raw_or_empty raw))) message
  where
    bounds :
        (cleaned m : Text)
        → (if is_empty cleaned
            then none
            else if has_absolute_path cleaned
            then some redacted_sync_error
            else some (cut shadow_error_max_len cleaned))
          ≡ some m
        → (length m ≤ 200) × (is_empty m ≡ false)
    bounds [] m h = cc
    bounds (c ∷ s) m h = elim (Bool-cases (has_absolute_path (c ∷ s))) [
      | inl path ↦
          let e : redacted_sync_error ≡ m = some_inj (rw path at h) in rw (← e) (omega arith, refl)
      | inr no_path ↦
          let e : cut shadow_error_max_len (c ∷ s) ≡ m = some_inj (rw no_path at h) in
          rw (← e) (length-cut 200 (c ∷ s) (omega arith), is_empty-cut 200 (c ∷ s) refl)
    ]
