-- ===== src/Cache/Holding.antt =====
-- Locks of the memory store: mutual exclusion.
use text.Mathlib.Text.{◌==◌ as str_eq}
use text.Mathlib.TextEquality.{eq_iff}
use text.Mathlib.TextPositions.{eq_refl}
use go_fast_framework.Common.{
  ℕ, String, ◌≡◌, ◌≢◌, refl, Bool, true, false, Option, none, some, List, [], ◌∷◌, arith, ◌==◌, sym,
  Option-cases, Bool-cases, inl, inr, ==_iff,
}
use go_fast_framework.Common.Dict
use go_fast_framework.Common.Dict.{get-assign}
use go_fast_framework.Cache.Memory.{MemoryLock, MemoryStore}
use go_fast_framework.Cache.Locks.{lock, compare_and_swap, acquire, release, force_release}

-- The calls on lock handles.
pub data LockOp : Type 0 where
  lock_op : String → ℕ → LockOp
  acquire_op release_op force_release_op : String → LockOp

unfoldable pub lock_step : LockOp → MemoryStore → MemoryStore
lock_step (lock_op k ttl) s = lock k ttl s
lock_step (acquire_op k) s = (acquire k s).1
lock_step (release_op k) s = (release k s).1
lock_step (force_release_op k) s = (force_release k s).1

unfoldable pub lock_steps : List LockOp → MemoryStore → MemoryStore
lock_steps [] s = s
lock_steps (op ∷ ops) s = lock_steps ops (lock_step op s)

-- None of the calls gives up the lock of the key.
abbrev pub Keeps : String → LockOp → Type 0
Keeps k (release_op j) = k ≢ j
Keeps k (force_release_op j) = k ≢ j
Keeps k op = Unit

abbrev pub AllKeep : String → List LockOp → Type 0
AllKeep k [] = Unit
AllKeep k (op ∷ ops) = Keeps k op × AllKeep k ops

abbrev held_by : Option MemoryLock → Bool
held_by none = false
held_by (some l) = l.acquired == 1

abbrev held : String → MemoryStore → Bool
held k s = held_by (Dict.get s.locks k)

acquire-held : (k : String) (s : MemoryStore) → held k s ≡ true → (acquire k s).0 ≡ false
unfolding acquire
acquire-held k s h = ground arith

held-acquire :
    (k : String) (s : MemoryStore) → (acquire k s).0 ≡ true → held k (acquire k s).1 ≡ true
unfolding acquire
held-acquire k s h = elim (Option-cases (Dict.get s.locks k)) [
  | inl none_here ↦ absurd (ground arith)
  | inr (l, here) ↦
      rw (here, acquire, compare_and_swap)
        (ground (arith, get-assign s.locks k k (record l { acquired = 1 }), eq_refl k))
]

-- Another lock's entry may change, and this one to a state in which it is held.
held-put :
    (k j : String) (l : MemoryLock) (s : MemoryStore)
    → held k s ≡ true
    → (k ≡ j → l.acquired ≡ 1)
    → held_by (Dict.get (Dict.assign s.locks j l) k) ≡ true
held-put k j l s h same = rw (get-assign s.locks j k l) (elim (Bool-cases (str_eq j k)) [
  | inl e ↦ let p = same (sym ((eq_iff j k).0 e)) in rw e ((==_iff l.acquired 1).1 p)
  | inr other ↦ rw other h
])

held-lock_step :
    (k : String) (op : LockOp) (s : MemoryStore)
    → Keeps k op
    → held k s ≡ true
    → held k (lock_step op s) ≡ true
unfolding lock_step lock acquire release force_release
held-lock_step k (lock_op j ttl) s keeps h = elim (Option-cases (Dict.get s.locks j)) [
  | inl new ↦ rw (new, lock_step, lock) (held-put k j _ s h (λ e. absurd (ground arith)))
  | inr (l, old) ↦ rw (old, lock_step, lock) h
]
held-lock_step k (acquire_op j) s keeps h = elim (Option-cases (Dict.get s.locks j)) [
  | inl new ↦ rw (new, lock_step, acquire, compare_and_swap) h
  | inr (l, old) ↦
      rw (old, lock_step, acquire, compare_and_swap)
        (elim (Bool-cases (l.acquired == 0)) [
          | inl won ↦ rw won (held-put k j _ s h (λ _. refl))
          | inr lost ↦ rw lost h
        ])
]
held-lock_step k (release_op j) s keeps h = elim (Option-cases (Dict.get s.locks j)) [
  | inl new ↦ rw (new, lock_step, release, compare_and_swap) h
  | inr (l, old) ↦
      rw (old, lock_step, release, compare_and_swap)
        (elim (Bool-cases (l.acquired == 1)) [
          | inl won ↦ rw won (held-put k j _ s h (λ e. absurd (keeps e)))
          | inr lost ↦ rw lost h
        ])
]
held-lock_step k (force_release_op j) s keeps h = elim (Option-cases (Dict.get s.locks j)) [
  | inl new ↦ rw (new, lock_step, force_release) h
  | inr (l, old) ↦ rw (old, lock_step, force_release) (held-put k j _ s h (λ e. absurd (keeps e)))
]

held-lock_steps :
    (k : String) (ops : List LockOp) (s : MemoryStore)
    → AllKeep k ops
    → held k s ≡ true
    → held k (lock_steps ops s) ≡ true
unfolding lock_steps
held-lock_steps k [] s keep h = h
held-lock_steps k (op ∷ ops) s keep h =
    held-lock_steps k ops (lock_step op s) keep.1 (held-lock_step k op s keep.0 h)

-- Once Acquire of a key has succeeded, it fails for everybody, whatever is called on whichever
-- locks, until the key is released.
pub acquire_excludes :
    (k : String) (ops : List LockOp) (s : MemoryStore)
    → (acquire k s).0 ≡ true
    → AllKeep k ops
    → (acquire k (lock_steps ops (acquire k s).1)).0 ≡ false
acquire_excludes k ops s won keep =
    acquire-held k _ (held-lock_steps k ops _ keep (held-acquire k s won))
