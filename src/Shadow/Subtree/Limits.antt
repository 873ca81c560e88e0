-- ===== src/Shadow/Subtree/Limits.antt =====
-- What is answered whole when no limit was exceeded.
use matryca_plumber.Prelude.{
  ℕ, zero, suc, ◌+◌, ◌≤◌, ◌≡◌, refl, ap, inl, inr, Bool, true, false, not, ◌&&◌, ◌||◌, List, [],
  ◌∷◌, ltb, leb, min, length, take, if◌then◌else◌, Bool-cases, arith,
}
use matryca_plumber.Prelude.Text.{Text}
use matryca_plumber.Shadow.Subtree.Rows.{clash, or-right}
use matryca_plumber.Shadow.Subtree.Query.{
  SubtreeBlock, complete, truncated, render_block, utf8_length, select_within,
  apply_output_byte_limit,
}

-- If the byte limit breaks nothing off, all blocks are selected.
select-all :
    (id_property : Text → Text) (limit : ℕ) (rows : List SubtreeBlock) (used : ℕ)
    → (select_within id_property limit used rows).2 ≡ false
    → (select_within id_property limit used rows).0 ≡ rows
unfolding select_within
select-all id_property limit [] used h = refl
select-all id_property limit (s ∷ rows) used h =
    elim (Bool-cases (ltb limit (used + utf8_length (render_block id_property s.row)))) [
      | inl over ↦ absurd (clash (simp over at h))
      | inr fits ↦
          simp fits (ap (λ more. s ∷ more) (select-all id_property limit rows _ (simp fits at h)))
    ]

pub apply-all :
    (id_property : Text → Text) (limit : ℕ) (rows : List SubtreeBlock)
    → (apply_output_byte_limit id_property limit rows).2 ≡ false
    → (apply_output_byte_limit id_property limit rows).0 ≡ rows
unfolding apply_output_byte_limit
apply-all id_property limit [] h = refl
apply-all id_property limit (s ∷ rows) h =
    ap (λ more. s ∷ more)
      (select-all id_property limit rows _
        (or-right (ltb limit (utf8_length (render_block id_property s.row))) _ h))

pub take-all {ℓ} :
    {A : Type ℓ} (n : ℕ) (xs : List A) → length xs ≤ length (take n xs) → take n xs ≡ xs
take-all zero [] h = refl
take-all zero (x ∷ xs) h = absurd (omega arith)
take-all (suc n) [] h = refl
take-all (suc n) (x ∷ xs) h = ap (λ rest. x ∷ rest) (take-all n xs (omega arith))

pub within-limit :
    (limit fetched total count : ℕ)
    → fetched ≡ min limit total
    → total ≡ count
    → (leb limit fetched && ltb fetched count) ≡ false
    → total ≤ fetched
within-limit limit fetched total count e k h = ground arith

truncated-ne-complete : truncated ≡ complete → ⊥
truncated-ne-complete h = cc h

pub status-complete :
    (over : Bool) → (if over then truncated else complete) ≡ complete → over ≡ false
status-complete true h = absurd (truncated-ne-complete h)
status-complete false h = refl

pub or-left : (a b : Bool) → (a || b) ≡ false → a ≡ false
or-left a b h = ground arith

pub not-false : (a : Bool) → not a ≡ false → a ≡ true
not-false a h = ground arith
