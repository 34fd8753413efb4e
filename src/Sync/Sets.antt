-- ===== src/Sync/Sets.antt =====
-- The set library (PBL) that daemon/sync.c keeps its handlers in, as far as that file uses it: a
-- parameter of the model. The sets there are all made with `pthread_compare`, which looks at
-- nothing but the thread id, so a key is given as the id that it points to.
use pm_lab_tools.Prelude.{
  ℕ, ◌<◌, ◌≡◌, ◌≢◌, ◌↔◌, Bool, true, Option, none, some, ◌==◌, if◌then◌else◌, is_some,
}
use pm_lab_tools.Sync.Handles.{Handle}

-- The element under a key, after one more element `h` has been offered to a set: an element that
-- compares equal to a present one is not added.
abbrev pub after_add : Option Handle → Handle → ℕ → Option Handle
after_add (some h') h k = some h'
after_add none h k = if h.thread == k then some h else none

-- The first of two: a set to which all elements of another are added keeps its own.
abbrev pub or_else : Option Handle → Option Handle → Option Handle
or_else (some h) other = some h
or_else none other = other

pub record PblSets : Type 1 where
  pub PblSet : Type 0
  -- pblSetNewHashSet
  pub new_hash_set : PblSet
  -- pblSetGetElement: the stored element that compares equal, or NULL
  pub get_element : PblSet → ℕ → Option Handle
  -- pblSetAdd
  pub add : PblSet → Handle → PblSet
  -- pblSetRemoveElement: whether an element was removed, and the set
  pub remove_element : PblSet → ℕ → Bool × PblSet
  -- pblSetAddAll (first set, second set)
  pub add_all : PblSet → PblSet → PblSet
  -- pblSetClear
  pub clear : PblSet → PblSet
  -- pblSetEquals
  pub equals : PblSet → PblSet → Bool
  -- pblSetSize
  pub size : PblSet → ℕ
  -- pblSetGet
  pub get : PblSet → ℕ → Option Handle
  pub get_element-new : (k : ℕ) → get_element new_hash_set k ≡ none
  pub get_element-thread :
      (s : PblSet) (k : ℕ) (h : Handle) → get_element s k ≡ some h → h.thread ≡ k
  pub get_element-add :
      (s : PblSet) (h : Handle) (k : ℕ) → get_element (add s h) k ≡ after_add (get_element s k) h k
  pub removed : (s : PblSet) (k : ℕ) → (remove_element s k).0 ≡ is_some (get_element s k)
  pub get_element-remove :
      (s : PblSet) (j k : ℕ)
      → get_element (remove_element s j).1 k ≡ (if j == k then none else get_element s k)
  pub get_element-add_all :
      (s t : PblSet) (k : ℕ)
      → get_element (add_all s t) k ≡ or_else (get_element s k) (get_element t k)
  pub get_element-clear : (s : PblSet) (k : ℕ) → get_element (clear s) k ≡ none
  pub equals_iff :
      (s t : PblSet)
      → (equals s t ≡ true) ↔ ((k : ℕ) → is_some (get_element s k) ≡ is_some (get_element t k))
  pub size_zero_iff : (s : PblSet) → (size s ≡ 0) ↔ ((k : ℕ) → get_element s k ≡ none)
  pub get_first :
      (s : PblSet)
      → size s ≢ 0
      → (h : Handle) × (get s 0 ≡ some h) × (get_element s h.thread ≡ some h)
  -- every position below the size has an element of the set, and every element a position
  pub get_below :
      (s : PblSet) (i : ℕ)
      → i < size s
      → (h : Handle) × (get s i ≡ some h) × (is_some (get_element s h.thread) ≡ true)
  pub get_all :
      (s : PblSet) (k : ℕ) (h : Handle)
      → get_element s k ≡ some h
      → (i : ℕ) × (i < size s) × (get s i ≡ some h)
