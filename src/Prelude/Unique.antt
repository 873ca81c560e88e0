-- ===== src/Prelude/Unique.antt =====
-- A dictionary has at most one entry for a key, and keeps it so.
use mathlib.Core.Path.{◌≡◌, refl, sym, ap, ◌∙◌}
use mathlib.Core.Logic.{inl, inr}
use mathlib.Core.Bool.{false, not, ◌&&◌, ◌||◌}
use mathlib.Core.Option.{none, some}
use mathlib.Core.List.{[], ◌∷◌, ◌++◌, append_assoc}
use native.Mathlib.Omega.{arith}
use matryca_plumber.Prelude.Tests.{if◌then◌else◌, Option-cases, Bool-cases}
use matryca_plumber.Prelude.Equality.{Eq, ◌==◌, ==_refl, ==_iff, contains, contains-append}
use matryca_plumber.Prelude.Dict
use matryca_plumber.Prelude.Dict.{Dict}

module _ {ℓ κ} {K : Type ℓ} {V : Type κ} ⦃e : Eq K⦄ where
  abbrev pub IsUnique : Dict K V → Type 0
  IsUnique [] = Unit
  IsUnique ((k, v) ∷ d) = (contains (Dict.keys d) k ≡ false) × IsUnique d

  contains-insert :
      (k j : K) (v : V) (d : Dict K V)
      → contains (Dict.keys (Dict.insert k v d)) j ≡ ((k == j) || contains (Dict.keys d) j)
  unfolding Dict.keys Dict.insert
  contains-insert k j v [] = refl
  contains-insert k j v ((i, w) ∷ d) = ground (arith, e.decides i k, contains-insert k j v d)

  contains-remove :
      (k j : K) (d : Dict K V)
      → contains (Dict.keys (Dict.remove k d)) j ≡ (not (k == j) && contains (Dict.keys d) j)
  unfolding Dict.keys Dict.remove
  contains-remove k j [] = ground arith
  contains-remove k j ((i, w) ∷ d) =
      ground (arith, e.decides i k, e.decides k j, e.decides i j, contains-remove k j d)

  pub insert-IsUnique : (k : K) (v : V) (d : Dict K V) → IsUnique d → IsUnique (Dict.insert k v d)
  unfolding Dict.insert Dict.keys
  insert-IsUnique k v [] h = (refl, tt)
  insert-IsUnique k v ((i, w) ∷ d) h = elim (Bool-cases (i == k)) [
    | inl same ↦ rw same h
    | inr other ↦ rw other (
      ground (arith, contains-insert k i v d, e.decides i k, e.decides k i, h.0),
      insert-IsUnique k v d h.1,
    )
  ]

  pub remove-IsUnique : (k : K) (d : Dict K V) → IsUnique d → IsUnique (Dict.remove k d)
  unfolding Dict.remove
  remove-IsUnique k [] h = tt
  remove-IsUnique k ((i, w) ∷ d) h = elim (Bool-cases (i == k)) [
    | inl same ↦ rw same (remove-IsUnique k d h.1)
    | inr other ↦ rw other (ground (arith, contains-remove k i d, h.0), remove-IsUnique k d h.1)
  ]

  pub append-IsUnique :
      (k : K) (v : V) (d : Dict K V)
      → IsUnique d
      → contains (Dict.keys d) k ≡ false
      → IsUnique (d ++ (k, v) ∷ [])
  unfolding Dict.keys
  append-IsUnique k v [] h new = (refl, tt)
  append-IsUnique k v ((i, w) ∷ d) h new = (
    rw (Dict.keys-append d ((k, v) ∷ []), contains-append (Dict.keys d) (k ∷ []) i, h.0)
        (ground (arith, new, e.decides i k, e.decides k i)),
    append-IsUnique k v d h.1 (ground (arith, new)),
  )

  pub get-absent : (k : K) (d : Dict K V) → contains (Dict.keys d) k ≡ false → Dict.get k d ≡ none
  unfolding Dict.get Dict.keys
  get-absent k [] h = refl
  get-absent k ((i, w) ∷ d) h = ground (arith, get-absent k d)

  pub absent-get : (k : K) (d : Dict K V) → Dict.get k d ≡ none → contains (Dict.keys d) k ≡ false
  unfolding Dict.get Dict.keys
  absent-get k [] h = refl
  absent-get k ((i, w) ∷ d) h = ground (arith, absent-get k d)

  pub get-append-new :
      (k j : K) (v : V) (d : Dict K V)
      → contains (Dict.keys d) k ≡ false
      → Dict.get j (d ++ (k, v) ∷ []) ≡ (if k == j then some v else Dict.get j d)
  unfolding Dict.get Dict.keys
  get-append-new k j v [] h = refl
  get-append-new k j v ((i, w) ∷ d) h =
      ground (arith, e.decides i k, e.decides k j, e.decides i j, get-append-new k j v d)

  pub removed-gone : (k : K) (d : Dict K V) → contains (Dict.keys (Dict.remove k d)) k ≡ false
  removed-gone k d = contains-remove k k d ∙ simp (==_refl k)

  -- Moving a key changes what no key is mapped to.
  pub get-move_to_end : (k j : K) (d : Dict K V) → Dict.get j (Dict.move_to_end k d) ≡ Dict.get j d
  unfolding Dict.move_to_end
  get-move_to_end k j d = elim (Option-cases (Dict.get k d)) [
    | inl gone ↦ simp gone
    | inr (v, has) ↦ simp has (
        get-append-new k j v (Dict.remove k d) (removed-gone k d) ∙ (elim (Bool-cases (k == j)) [
          | inl same ↦ simp same (sym has ∙ ap (λ i. Dict.get i d) ((==_iff k j).0 same))
          | inr other ↦ simp other (Dict.get-remove k j d ∙ simp other refl)
        ]))
  ]

  pub move_to_end-IsUnique : (k : K) (d : Dict K V) → IsUnique d → IsUnique (Dict.move_to_end k d)
  unfolding Dict.move_to_end
  move_to_end-IsUnique k d h = elim (Option-cases (Dict.get k d)) [
    | inl gone ↦ simp gone h
    | inr (v, has) ↦
        simp has (append-IsUnique k v (Dict.remove k d) (remove-IsUnique k d h) (removed-gone k d))
  ]

  -- A key between two parts of a dictionary stands in neither.
  pub middle-absent :
      (k : K) (v : V) (c d : Dict K V)
      → IsUnique (c ++ (k, v) ∷ d)
      → contains (Dict.keys c) k ≡ false
  unfolding Dict.keys
  middle-absent k v [] d h = refl
  middle-absent k v ((i, w) ∷ c) d h =
      let apart : contains (Dict.keys c ++ k ∷ Dict.keys d) i ≡ false =
        ap (λ ks. contains ks i) (sym (Dict.keys-append c ((k, v) ∷ d))) ∙ h.0 in
      ground (
        arith,
        contains-append (Dict.keys c) (k ∷ Dict.keys d) i,
        apart,
        middle-absent k v c d h.1,
        e.decides i k,
        e.decides k i,
      )

  -- Inserting a new key at the end of the first part moves the border.
  pub insert-middle :
      (k : K) (v : V) (c d : Dict K V)
      → IsUnique (c ++ (k, v) ∷ d)
      → Dict.insert k v c ++ d ≡ c ++ (k, v) ∷ d
  insert-middle k v c d h =
      ap (λ b. b ++ d) (Dict.insert-absent k v c (middle-absent k v c d h))
      ∙ append_assoc c ((k, v) ∷ []) d
