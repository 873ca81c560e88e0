-- ===== src/Graph/PageLocks.antt =====
-- The registry of the in-process page locks (src/graph/page_write_lock.py), whose steps run under
-- `_registry_guard`. A lock is a number, with the thread that holds it; an `RLock` can be acquired
-- again by its own thread. `has_probe` says that `RLock.locked` exists. The answer of
-- `_try_evict_unlocked_registry_entry`, which its only caller drops, is left out.
use matryca_plumber.Prelude.{
  ℕ, ◌+◌, Bool, true, false, not, ◌&&◌, Option, none, some, [], ◌∷◌, ◌==◌, nat_eq, leb, length,
  if◌then◌else◌,
}
use matryca_plumber.Prelude.Text.{Text, text_eq}
use matryca_plumber.Prelude.Dict
use matryca_plumber.Prelude.Dict.{Dict}

pub record Registry : Type 0 where
  pub page_locks : Dict Text ℕ
  pub next_lock : ℕ
  pub holder : ℕ → Option ℕ

abbrev pub max_page_lock_registry : ℕ
max_page_lock_registry = 4096

abbrev pub is_held : Option ℕ → Bool
is_held none = false
is_held (some thread) = true

-- `acquire(blocking=False)`
abbrev pub can_acquire : ℕ → Option ℕ → Bool
can_acquire thread none = true
can_acquire thread (some owner) = owner == thread

module _ (has_probe : Bool) (thread : ℕ) where
  abbrev pub is_evictable : Option ℕ → Bool
  is_evictable holder = not (has_probe && is_held holder) && can_acquire thread holder

  -- The key that the loop deletes, if any.
  unfoldable pub evicted_key : (ℕ → Option ℕ) → Dict Text ℕ → Option Text
  evicted_key holder [] = none
  evicted_key holder ((key, lock) ∷ more) =
      let later = evicted_key holder more in if is_evictable (holder lock) then some key else later

  abbrev pub without_key : Option Text → Dict Text ℕ → Dict Text ℕ
  without_key none locks = locks
  without_key (some key) locks = Dict.remove key locks

  unfoldable pub try_evict_unlocked_registry_entry : Registry → Registry
  unfolding evicted_key
  try_evict_unlocked_registry_entry r = record r {
    page_locks = without_key (evicted_key r.holder r.page_locks) r.page_locks;
  }

  abbrev pub with_room : Registry → Registry
  with_room r =
      if leb max_page_lock_registry (length r.page_locks)
      then try_evict_unlocked_registry_entry r
      else r

  abbrev pub add_lock : Text → Registry → Registry × ℕ
  add_lock key r = (
    record r { page_locks = Dict.insert key r.next_lock r.page_locks; next_lock = r.next_lock + 1 },
    r.next_lock,
  )

  abbrev pub known_or_new : Text → Option ℕ → Registry → Registry × ℕ
  known_or_new key (some lock) r =
      (record r { page_locks = Dict.move_to_end key r.page_locks }, lock)
  known_or_new key none r = add_lock key (with_room r)

  unfoldable pub lock_for_key : Text → Registry → Registry × ℕ
  unfolding try_evict_unlocked_registry_entry
  lock_for_key key r = known_or_new key (Dict.get key r.page_locks) r
