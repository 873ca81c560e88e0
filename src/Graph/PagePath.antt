-- ===== src/Graph/PagePath.antt =====
-- Page titles and suffixes of graph-relative POSIX paths (src/graph/page_path.py, `pathlib`).
use matryca_plumber.Prelude.{
  ◌≡◌, refl, Bool, true, false, ◌&&◌, ◌||◌, List, [], ◌∷◌, ◌++◌, ◌==◌, length, ltb, nat_beq,
  if◌then◌else◌,
}
use matryca_plumber.Prelude.Text.{Text, text, is_empty, lower, text_eq}

-- `s.split("/")`: the first part, and the others.
split_slash : Text → List Text
split_slash [] = [] ∷ []
split_slash (c ∷ s) =
    let parts = split_slash s in
    if nat_beq c 47 then [] ∷ parts else elim parts [ [] ↦ (c ∷ []) ∷ [] | p ∷ ps ↦ (c ∷ p) ∷ ps ]

-- `Path(s).parts` of a relative path: empty parts and `.` are dropped.
unfoldable pub parts_of : Text → List Text
unfolding split_slash
parts_of s = keep_parts (split_slash s)
  where
    keep_parts : List Text → List Text
    keep_parts [] = []
    keep_parts (p ∷ ps) =
        let rest = keep_parts ps in if is_empty p || (p == text ".") then rest else p ∷ rest

-- `Path.as_posix` of the parts.
join_slash : List Text → Text
join_slash [] = []
join_slash (p ∷ []) = p
join_slash (p ∷ q ∷ ps) = p ++ (47 ∷ join_slash (q ∷ ps))

ends_with : Text → Text → Bool
ends_with suffix [] = suffix == []
ends_with suffix (c ∷ s) = ((c ∷ s) == suffix) || ends_with suffix s

-- `s.removesuffix(".md")`
remove_md : Text → Text
remove_md [] = []
remove_md (c ∷ s) = let rest = remove_md s in if (c ∷ s) == text ".md" then [] else c ∷ rest

-- `s.replace("___", "/")`
slash_underscores : Text → Text
slash_underscores [] = []
slash_underscores (a ∷ []) = a ∷ []
slash_underscores (a ∷ b ∷ []) = a ∷ b ∷ []
slash_underscores (a ∷ b ∷ c ∷ s) =
    let whole = slash_underscores s in
    let tail = slash_underscores (b ∷ c ∷ s) in
    if nat_beq a 95 && nat_beq b 95 && nat_beq c 95 then 47 ∷ whole else a ∷ tail

-- `s.replace("\\", "/")`
posix_slashes : Text → Text
posix_slashes [] = []
posix_slashes (c ∷ s) = (if nat_beq c 92 then 47 else c) ∷ posix_slashes s

drop_section : List Text → List Text
drop_section [] = []
drop_section (p ∷ ps) = if (p == text "pages") || (p == text "journals") then ps else p ∷ ps

unfoldable pub page_title_from_graph_relpath : Text → Text
unfolding parts_of join_slash remove_md slash_underscores posix_slashes drop_section
page_title_from_graph_relpath relpath =
    slash_underscores (remove_md (join_slash (drop_section (parts_of (posix_slashes relpath)))))

last_part : List Text → Text
last_part [] = []
last_part (p ∷ []) = p
last_part (p ∷ q ∷ ps) = last_part (q ∷ ps)

-- `Path(rel).suffix.lower() == ".md"`: a name that is only the suffix has none.
unfoldable pub is_markdown : Text → Bool
unfolding split_slash last_part ends_with lower
is_markdown rel =
    let name = last_part (split_slash rel) in
    ltb 3 (length name) && ends_with (text ".md") (lower name)

title_test : page_title_from_graph_relpath (text "pages/a___b.md") ≡ text "a/b"
unfolding page_title_from_graph_relpath
title_test = refl

-- A journal and a page of one name have one title.
title_collision :
    page_title_from_graph_relpath (text "journals/x.md")
    ≡ page_title_from_graph_relpath (text "pages/x.md")
unfolding page_title_from_graph_relpath
title_collision = refl

markdown_test : (is_markdown (text "pages/A.MD") ≡ true) × (is_markdown (text "pages/.md") ≡ false)
unfolding is_markdown
markdown_test = (refl, refl)
