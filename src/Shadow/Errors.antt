-- ===== src/Shadow/Errors.antt =====
-- The errors of synchronisation and their bounded messages (src/shadow/errors.py).
use matryca_plumber.Prelude.{
  ℕ, ◌≤◌, ◌≡◌, Bool, true, false, ◌&&◌, ◌||◌, Option, List, [], ◌∷◌, ◌++◌, contains, length, take,
  arith, if◌then◌else◌, leb, ltb, nat_beq, Bool-cases, inl, inr,
}
use matryca_plumber.Prelude.Text.{Text, text, strip, is_empty, text_eq}
use matryca_plumber.Prelude.Decimal.{str}
use matryca_plumber.Shadow.Console.{
  sanitize_for_console, cut, ellipsis, shadow_error_max_len, raw_or_empty, length-cut,
}

display_uuid : Text → Text
display_uuid block_uuid =
    let cleaned = sanitize_for_console (strip block_uuid) in
    if ltb 12 (length cleaned) then take 8 cleaned ++ ellipsis else cleaned

-- The clean paths, in order and without repetition; `seen` are those before.
unique_paths : List Text → List Text → List Text
unique_paths seen [] = seen
unique_paths seen (raw ∷ more) =
    let path = sanitize_for_console (strip raw) in
    unique_paths (if is_empty path || contains seen path then seen else seen ++ path ∷ []) more

join_comma : List Text → Text
join_comma [] = []
join_comma (p ∷ []) = p
join_comma (p ∷ q ∷ ps) = p ++ (text ", " ++ join_comma (q ∷ ps))

duplicate_body : Text → List Text → Text
duplicate_body uid (path ∷ []) =
    text "duplicate block_uuid " ++ (uid ++ (text " within page: " ++ path))
duplicate_body uid paths =
    text "duplicate block_uuid " ++ (uid ++ (text " across pages: " ++ join_comma paths))

unfoldable pub format_duplicate_block_uuid_error : Text → List Text → Text
unfolding display_uuid unique_paths join_comma duplicate_body
format_duplicate_block_uuid_error block_uuid file_paths =
    cut shadow_error_max_len
      (duplicate_body (display_uuid block_uuid) (take 5 (unique_paths [] file_paths)))

-- A code point outside `[^A-Za-z0-9_-]`.
is_label : ℕ → Bool
is_label c =
    (leb 65 c && leb c 90)
    || (leb 97 c && leb c 122)
    || (leb 48 c && leb c 57)
    || nat_beq c 95
    || nat_beq c 45

-- `_PARSE_ERROR_CATEGORY.sub("_", s)`; `inside` says whether a run of other code points is open.
label_only : Bool → Text → Text
label_only inside [] = []
label_only inside (c ∷ s) =
    let kept = c ∷ label_only false s in
    let rest = label_only true s in if is_label c then kept else if inside then rest else 95 ∷ rest

-- `s.strip("_")`
lstrip_underscores : Text → Text
lstrip_underscores [] = []
lstrip_underscores (c ∷ s) = let rest = lstrip_underscores s in if nat_beq c 95 then rest else c ∷ s

rstrip_underscores : Text → Text
rstrip_underscores [] = []
rstrip_underscores (c ∷ s) =
    let rest = rstrip_underscores s in if is_empty rest && nat_beq c 95 then [] else c ∷ rest

strip_underscores : Text → Text
strip_underscores s = rstrip_underscores (lstrip_underscores s)

abbrev pub public_parse_categories : List Text
public_parse_categories =
    text "timeout"
    ∷ text "protocol_mismatch"
    ∷ text "unpickle_error"
    ∷ text "invalid_mode"
    ∷ text "parse_error"
    ∷ []

-- A label that is not public is hidden.
public_label : Text → Text
public_label label = if contains public_parse_categories label then label else text "parse_error"

unfoldable pub safe_category : Option Text → Text
unfolding public_label label_only is_label strip_underscores lstrip_underscores rstrip_underscores
safe_category category =
    let raw = raw_or_empty category in
    let named = if is_empty raw then text "parse_error" else raw in
    public_label (strip_underscores (label_only false (sanitize_for_console named)))

-- `max(0, n)` of a count is the count. The mode of the only caller is `stack`.
unfoldable pub format_bounded_page_parse_error : Option Text → Text → ℕ → ℕ → Text
format_bounded_page_parse_error category content_hash byte_count line_count =
    cut shadow_error_max_len (
      text "bounded page parse failed: "
      ++ (text "category="
          ++ (safe_category category
              ++ (text " content_hash="
                  ++ (take 64 (sanitize_for_console content_hash)
                      ++ (text " byte_count="
                          ++ (str byte_count
                              ++ (text " line_count="
                                  ++ (str line_count ++ text " mode=stack")))))))))

-- `ShadowPageParseError` and `ShadowSyncError`, with their messages, and any other exception.
pub data SyncError : Type 0 where
  shadow_page_parse_error : Text → SyncError
  shadow_sync_error : Text → SyncError
  integrity_error : SyncError

public_label-public : (label : Text) → contains public_parse_categories (public_label label) ≡ true
unfolding public_label
public_label-public label = elim (Bool-cases (contains public_parse_categories label)) [
  | inl e ↦ rw e e
  | inr e ↦ rw e
]

-- The message shows no category but the five public ones.
pub safe_category-public :
    (category : Option Text) → contains public_parse_categories (safe_category category) ≡ true
unfolding safe_category
safe_category-public category =
    let raw = raw_or_empty category in
    let named = if is_empty raw then text "parse_error" else raw in
    public_label-public (strip_underscores (label_only false (sanitize_for_console named)))

-- The message of a parse error has at most 200 code points.
pub length-format_bounded_page_parse_error :
    (category : Option Text) (content_hash : Text) (bytes lines : ℕ)
    → length (format_bounded_page_parse_error category content_hash bytes lines) ≤ 200
unfolding format_bounded_page_parse_error
length-format_bounded_page_parse_error category content_hash bytes lines =
    length-cut 200 _ (omega arith)
