-- ===== src/Prelude/Sets.antt =====
-- Python's `set` as a list with no repetition.
use matryca_plumber.Prelude.{
  ◌≡◌, ◌||◌, ◌&&◌, not, List, [], ◌∷◌, ◌++◌, ◌==◌, Eq, contains, contains-append, arith,
  if◌then◌else◌,
}

module _ {ℓ} {A : Type ℓ} ⦃e : Eq A⦄ where
  -- `s.add(a)`
  unfoldable pub add : A → List A → List A
  add a s = if contains s a then s else s ++ a ∷ []

  -- `s.discard(a)`
  unfoldable pub discard : A → List A → List A
  discard a [] = []
  discard a (x ∷ s) = let rest = discard a s in if x == a then rest else x ∷ rest

  pub contains-add : (a b : A) (s : List A) → contains (add a s) b ≡ ((a == b) || contains s b)
  unfolding add
  contains-add a b s = ground (arith, contains-append s (a ∷ []) b, e.decides a b)

  pub contains-discard :
      (a b : A) (s : List A) → contains (discard a s) b ≡ (not (a == b) && contains s b)
  unfolding discard
  contains-discard a b [] = ground arith
  contains-discard a b (x ∷ s) =
      ground (arith, contains-discard a b s, e.decides x a, e.decides a b, e.decides x b)
