-- ===== src/Prelude/Sort.antt =====
-- Python's order of texts, by code points, and `sorted`.
use matryca_plumber.Prelude.{
  ◌≡◌, refl, ap, ◌∙◌, inl, inr, Bool, true, false, ◌||◌, List, [], ◌∷◌, map, ltb, nat_beq, Eq, ◌==◌,
  contains, length, suc, Bool-cases, if◌then◌else◌, arith,
}
use matryca_plumber.Prelude.Text.{Text}

-- `a <= b`
unfoldable pub text_leb : Text → Text → Bool
text_leb [] b = true
text_leb (c ∷ a) [] = false
text_leb (c ∷ a) (d ∷ b) =
    let rest = text_leb a b in if ltb c d then true else if nat_beq c d then rest else false

module _ {ℓ} {A : Type ℓ} (le : A → A → Bool) where
  insert_sorted : A → List A → List A
  insert_sorted x [] = x ∷ []
  insert_sorted x (y ∷ ys) = if le x y then x ∷ y ∷ ys else y ∷ insert_sorted x ys

  -- A stable sort.
  unfoldable pub sorted : List A → List A
  unfolding insert_sorted
  sorted [] = []
  sorted (x ∷ xs) = insert_sorted x (sorted xs)

module _ {ℓ κ} {A : Type ℓ} {B : Type κ} ⦃e : Eq B⦄ (le : A → A → Bool) (f : A → B) where
  contains-insert_sorted :
      (x : A) (ys : List A) (b : B)
      → contains (map f (insert_sorted le x ys)) b ≡ (f x == b || contains (map f ys) b)
  unfolding insert_sorted
  contains-insert_sorted x [] b = refl
  contains-insert_sorted x (y ∷ ys) b = elim (Bool-cases (le x y)) [
    | inl first ↦ rw first refl
    | inr later ↦ rw later (ground (arith, contains-insert_sorted x ys b))
  ]

  -- Sorting keeps what the elements are mapped to.
  pub contains-sorted :
      (xs : List A) (b : B) → contains (map f (sorted le xs)) b ≡ contains (map f xs) b
  unfolding sorted
  contains-sorted [] b = refl
  contains-sorted (x ∷ xs) b =
      contains-insert_sorted x (sorted le xs) b
      ∙ ap (λ rest. f x == b || rest) (contains-sorted xs b)

module _ {ℓ} {A : Type ℓ} (le : A → A → Bool) where
  length-insert_sorted : (x : A) (ys : List A) → length (insert_sorted le x ys) ≡ suc (length ys)
  unfolding insert_sorted
  length-insert_sorted x [] = refl
  length-insert_sorted x (y ∷ ys) = ground (arith, length-insert_sorted x ys)

  pub length-sorted : (xs : List A) → length (sorted le xs) ≡ length xs
  unfolding sorted
  length-sorted [] = refl
  length-sorted (x ∷ xs) =
      length-insert_sorted x (sorted le xs) ∙ ap (λ n. suc n) (length-sorted xs)
