-- ===== src/Graph/HeldLocks.antt =====
-- A page lock that is held stays in the registry, so that all who ask for its page meet in it.
use matryca_plumber.Prelude.{
  ℕ, ◌≡◌, ◌⊎◌, inl, inr, refl, sym, ap, ◌∙◌, Bool, true, false, Option, none, some, some_inj, List,
  All, [], ◌∷◌, ◌==◌, nat_eq, ==_iff, leb, length, Bool-cases, Option-cases, arith,
}
use matryca_plumber.Prelude.Text.{Text, text_eq}
use matryca_plumber.Prelude.Dict
use matryca_plumber.Prelude.Dict.{Dict}
use matryca_plumber.Prelude.Unique.{
  IsUnique, get-absent, get-move_to_end, remove-IsUnique, move_to_end-IsUnique, insert-IsUnique,
}
use matryca_plumber.Graph.PageLocks.{
  Registry, is_evictable, evicted_key, with_room, max_page_lock_registry,
  try_evict_unlocked_registry_entry, lock_for_key,
}

lost-lock : {lock : ℕ} → ◌≡◌ {A = Option ℕ} none (some lock) → ⊥
lost-lock h = cc h

no-key : {key : Text} → ◌≡◌ {A = Option Text} none (some key) → ⊥
no-key h = cc h

clash : true ≡ false → ⊥
clash h = cc h

module _ (has_probe : Bool) (thread : ℕ) where
  -- A lock that is held, where the loop sees that or another thread holds it, is not evictable.
  held-kept :
      (owner : ℕ)
      → (has_probe ≡ true) ⊎ (owner == thread ≡ false)
      → is_evictable has_probe thread (some owner) ≡ false
  held-kept owner (inl probe) = simp probe refl
  held-kept owner (inr other) = ground arith

  evicted-get :
      (holder : ℕ → Option ℕ) (locks : Dict Text ℕ) (key : Text)
      → IsUnique locks
      → evicted_key has_probe thread holder locks ≡ some key
      → (lock : ℕ) × (Dict.get key locks ≡ some lock)
        × (is_evictable has_probe thread (holder lock) ≡ true)
  unfolding evicted_key Dict.get
  evicted-get holder [] key u h = absurd (no-key h)
  evicted-get holder ((k, lock) ∷ more) key u h =
      elim (Bool-cases (is_evictable has_probe thread (holder lock))) [
        | inl evictable ↦
            let e : k ≡ key = some_inj (simp evictable at h) in
            (lock, simp ((==_iff k key).1 e) refl, evictable)
        | inr kept ↦
            let (found, there, evictable) = evicted-get holder more key u.1 (simp kept at h) in
            elim (Bool-cases (k == key)) [
              | inl same ↦ absurd (
                  lost-lock (
                    sym (
                      ap (λ j. Dict.get j more) (sym ((==_iff k key).0 same))
                      ∙ get-absent k more u.0)
                    ∙ there))
              | inr other ↦ (found, simp other there, evictable)
            ]
      ]

  -- Making room leaves a key whose lock is not evictable.
  room-get :
      (r : Registry) (k : Text) (lock : ℕ)
      → IsUnique r.page_locks
      → Dict.get k r.page_locks ≡ some lock
      → is_evictable has_probe thread (r.holder lock) ≡ false
      → Dict.get k (with_room has_probe thread r).page_locks ≡ some lock
  unfolding try_evict_unlocked_registry_entry
  room-get r k lock u h kept =
      elim (Bool-cases (leb max_page_lock_registry (length r.page_locks))) [
        | inr free ↦ simp free h
        | inl full ↦
            simp full (elim (Option-cases (evicted_key has_probe thread r.holder r.page_locks)) [
              | inl nothing ↦ simp nothing h
              | inr (key, evicted) ↦ simp evicted (
                  Dict.get-remove key k r.page_locks ∙ (elim (Bool-cases (key == k)) [
                    | inl same ↦
                        let (other, found, evictable) =
                          evicted-get r.holder r.page_locks key u evicted in
                        let e : other ≡ lock = some_inj (
                          sym found
                          ∙ ap (λ j. Dict.get j r.page_locks) ((==_iff key k).0 same)
                          ∙ h) in
                        absurd (
                          clash (
                            sym evictable
                            ∙ ap (λ l. is_evictable has_probe thread (r.holder l)) e
                            ∙ kept))
                    | inr apart ↦ simp apart h
                  ]))
            ])
      ]

  room-IsUnique :
      (r : Registry) → IsUnique r.page_locks → IsUnique (with_room has_probe thread r).page_locks
  unfolding try_evict_unlocked_registry_entry
  room-IsUnique r u = elim (Bool-cases (leb max_page_lock_registry (length r.page_locks))) [
    | inr free ↦ simp free u
    | inl full ↦
        simp full (elim (Option-cases (evicted_key has_probe thread r.holder r.page_locks)) [
          | inl nothing ↦ simp nothing u
          | inr (key, evicted) ↦ simp evicted (remove-IsUnique key r.page_locks u)
        ])
  ]

  asked-get :
      (r : Registry) (key k : Text) (lock : ℕ)
      → IsUnique r.page_locks
      → Dict.get k r.page_locks ≡ some lock
      → is_evictable has_probe thread (r.holder lock) ≡ false
      → Dict.get k (lock_for_key has_probe thread key r).0.page_locks ≡ some lock
  unfolding lock_for_key
  asked-get r key k lock u h kept = elim (Option-cases (Dict.get key r.page_locks)) [
    | inr (known, there) ↦ simp there (get-move_to_end key k r.page_locks ∙ h)
    | inl absent ↦ simp absent (
        Dict.get-insert key k (with_room has_probe thread r).next_lock
          (with_room has_probe thread r).page_locks
        ∙ (elim (Bool-cases (key == k)) [
          | inl same ↦ absurd (
              lost-lock
                (sym absent ∙ ap (λ j. Dict.get j r.page_locks) ((==_iff key k).0 same) ∙ h))
          | inr apart ↦ simp apart (room-get r k lock u h kept)
        ]))
  ]

  asked-IsUnique :
      (r : Registry) (key : Text)
      → IsUnique r.page_locks
      → IsUnique (lock_for_key has_probe thread key r).0.page_locks
  unfolding lock_for_key
  asked-IsUnique r key u = elim (Option-cases (Dict.get key r.page_locks)) [
    | inr (known, there) ↦ simp there (move_to_end-IsUnique key r.page_locks u)
    | inl absent ↦
        simp absent
          (insert-IsUnique key (with_room has_probe thread r).next_lock _ (room-IsUnique r u))
  ]

-- One call of `_lock_for_key`: its thread and key, and who holds which lock at that time.
pub record Request : Type 0 where
  pub thread : ℕ
  pub key : Text
  pub holder : ℕ → Option ℕ

abbrev pub asked : Bool → List Request → Registry → Registry
asked has_probe [] r = r
asked has_probe (q ∷ requests) r =
    asked has_probe requests
      (lock_for_key has_probe q.thread q.key (record r { holder = q.holder })).0

-- A lock that someone holds, seen from a request: the loop can tell, or another thread asks.
pub record IsSeen (has_probe : Bool) (lock : ℕ) (q : Request) : Type 0 where
  pub owner : ℕ
  pub held : q.holder lock ≡ some owner
  pub seen : (has_probe ≡ true) ⊎ ((owner == q.thread) ≡ false)

-- A page whose lock is held during all of a series of requests, by a thread that makes none of them
-- or where `RLock.locked` exists, in a registry with one entry for a key: who asks for the page
-- afterwards is given that lock.
pub held_met :
    (has_probe : Bool) (requests : List Request) (r : Registry) (k : Text) (lock thread : ℕ)
    → IsUnique r.page_locks
    → Dict.get k r.page_locks ≡ some lock
    → All (IsSeen has_probe lock) requests
    → (lock_for_key has_probe thread k (asked has_probe requests r)).1 ≡ lock
unfolding lock_for_key
held_met has_probe [] r k lock thread u h all = simp h refl
held_met has_probe (q ∷ requests) r k lock thread u h all =
    held_met has_probe requests
      (lock_for_key has_probe q.thread q.key (record r { holder = q.holder })).0 k lock thread
      (asked-IsUnique has_probe q.thread (record r { holder = q.holder }) q.key u)
      (asked-get has_probe q.thread (record r { holder = q.holder }) q.key k lock u h
        (ap (is_evictable has_probe q.thread) all.0.held
          ∙ held-kept has_probe q.thread all.0.owner all.0.seen))
      all.1
