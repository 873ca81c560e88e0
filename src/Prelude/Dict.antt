-- ===== src/Prelude/Dict.antt =====
-- Python's `dict`: an association list in insertion order, with at most one entry for a key.
use Prim.Native.Nat.{◌+◌, ◌≤◌}
use mathlib.Core.Path.{◌≡◌, refl, ap}
use mathlib.Core.Bool.{false}
use mathlib.Core.Option.{Option, none, some}
use mathlib.Core.List.{List, [], ◌∷◌, ◌++◌}
use native.Mathlib.Omega.{arith}
use matryca_plumber.Prelude.Tests.{if◌then◌else◌}
use matryca_plumber.Prelude.Equality.{Eq, ◌==◌, contains}
use matryca_plumber.Prelude.Lists.{length}

abbrev pub Dict {ℓ κ} : Type ℓ → Type κ → Type (ℓ ⊔ κ)
Dict K V = List (K × V)

module _ {ℓ κ} {K : Type ℓ} {V : Type κ} where
  unfoldable pub keys : Dict K V → List K
  keys [] = []
  keys ((k, v) ∷ d) = k ∷ keys d

module _ {ℓ κ} {K : Type ℓ} {V : Type κ} ⦃e : Eq K⦄ where
  -- `d.get(k)`
  unfoldable pub get : K → Dict K V → Option V
  get k [] = none
  get k ((j, v) ∷ d) = if j == k then some v else get k d

  -- `d[k] = v`: an old key keeps its place.
  unfoldable pub insert : K → V → Dict K V → Dict K V
  insert k v [] = (k, v) ∷ []
  insert k v ((j, w) ∷ d) = if j == k then (j, v) ∷ d else (j, w) ∷ insert k v d

  -- `d.pop(k, None)` and `del d[k]`
  unfoldable pub remove : K → Dict K V → Dict K V
  remove k [] = []
  remove k ((j, w) ∷ d) = if j == k then remove k d else (j, w) ∷ remove k d

  abbrev pub moved : K → Option V → Dict K V → Dict K V
  moved k none d = d
  moved k (some v) d = remove k d ++ (k, v) ∷ []

  -- `move_to_end(k)` of an `OrderedDict`.
  unfoldable pub move_to_end : K → Dict K V → Dict K V
  move_to_end k d = moved k (get k d) d

  pub get-insert :
      (k j : K) (v : V) (d : Dict K V) → get j (insert k v d) ≡ (if k == j then some v else get j d)
  unfolding get insert
  get-insert k j v [] = refl
  get-insert k j v ((i, w) ∷ d) =
      ground (arith, e.decides k j, e.decides i k, e.decides i j, get-insert k j v d)

  pub get-remove :
      (k j : K) (d : Dict K V) → get j (remove k d) ≡ (if k == j then none else get j d)
  unfolding get remove
  get-remove k j [] = ground arith
  get-remove k j ((i, w) ∷ d) =
      ground (arith, e.decides k j, e.decides i k, e.decides i j, get-remove k j d)

  pub length-insert : (k : K) (v : V) (d : Dict K V) → length (insert k v d) ≤ length d + 1
  unfolding insert
  length-insert k v [] = omega arith
  length-insert k v ((i, w) ∷ d) = ground (arith, length-insert k v d)

  -- A key that is absent: its removal changes nothing, its insertion adds an entry at the end.
  pub remove-absent : (k : K) (d : Dict K V) → contains (keys d) k ≡ false → remove k d ≡ d
  unfolding keys remove
  remove-absent k [] h = refl
  remove-absent k ((i, w) ∷ d) h = ground (arith, remove-absent k d)

  pub insert-absent :
      (k : K) (v : V) (d : Dict K V) → contains (keys d) k ≡ false → insert k v d ≡ d ++ (k, v) ∷ []
  unfolding keys insert
  insert-absent k v [] h = refl
  insert-absent k v ((i, w) ∷ d) h = ground (arith, insert-absent k v d)

module _ {ℓ κ} {K : Type ℓ} {V : Type κ} where
  pub keys-append : (c d : Dict K V) → keys (c ++ d) ≡ keys c ++ keys d
  unfolding keys
  keys-append [] d = refl
  keys-append ((k, v) ∷ c) d = ap (λ ks. k ∷ ks) (keys-append c d)
