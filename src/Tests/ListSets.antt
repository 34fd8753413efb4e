-- ===== src/Tests/ListSets.antt =====
-- The set library as a list of handles: a value of the parameter `PblSets`, for the tests.
use pm_lab_tools.Prelude.{
  ℕ, zero, suc, ◌<◌, ◌≡◌, refl, ◌≢◌, ◌↔◌, Bool, true, ◌&&◌, Option, none, some, List, [], ◌∷◌,
  arith, ◌==◌, if◌then◌else◌, is_some, length, get_elem?, Bool-cases, inl, inr, ==_iff,
}
use pm_lab_tools.Sync.Handles.{Handle}
use pm_lab_tools.Sync.Sets.{PblSets, after_add, or_else}

abbrev find : List Handle → ℕ → Option Handle
find [] k = none
find (h ∷ s) k = if h.thread == k then some h else find s k

abbrev add : List Handle → Handle → List Handle
add s h = if is_some (find s h.thread) then s else h ∷ s

abbrev remove : List Handle → ℕ → List Handle
remove [] k = []
remove (h ∷ s) k = if h.thread == k then remove s k else h ∷ remove s k

abbrev add_all : List Handle → List Handle → List Handle
add_all s [] = s
add_all s (h ∷ t) = add_all (add s h) t

abbrev subset : List Handle → List Handle → Bool
subset [] t = true
subset (h ∷ s) t = is_some (find t h.thread) && subset s t

pub find-thread : (s : List Handle) (k : ℕ) (h : Handle) → find s k ≡ some h → h.thread ≡ k
find-thread [] k h e = ground arith
find-thread (x ∷ s) k h e = ground (arith, find-thread s k h)

pub find-add : (s : List Handle) (h : Handle) (k : ℕ) → find (add s h) k ≡ after_add (find s k) h k
find-add s h k = elim (Bool-cases (h.thread == k)) [
  | inl here ↦ let same : h.thread ≡ k = (==_iff _ _).0 here in rw same (ground arith)
  | inr away ↦ ground arith
]

pub find-remove :
    (s : List Handle) (j k : ℕ) → find (remove s j) k ≡ (if j == k then none else find s k)
find-remove [] j k = ground arith
find-remove (h ∷ s) j k = ground (arith, find-remove s j k)

pub find-add_all :
    (s t : List Handle) (k : ℕ) → find (add_all s t) k ≡ or_else (find s k) (find t k)
find-add_all s [] k = ground arith
find-add_all s (h ∷ t) k = ground (arith, find-add_all (add s h) t k, find-add s h k)

subset-find :
    (s t : List Handle) (k : ℕ)
    → subset s t ≡ true
    → is_some (find s k) ≡ true
    → is_some (find t k) ≡ true
subset-find [] t k h e = cc
subset-find (x ∷ s) t k h e = elim (Bool-cases (x.thread == k)) [
  | inl here ↦ let same : x.thread ≡ k = (==_iff _ _).0 here in rw (← same) (ground arith)
  | inr away ↦ ground (arith, subset-find s t k)
]

find_self : (x : Handle) (s : List Handle) → find (x ∷ s) x.thread ≡ some x
find_self x s = ground arith

subset-of-find :
    (s t : List Handle)
    → ((k : ℕ) → is_some (find s k) ≡ true → is_some (find t k) ≡ true)
    → subset s t ≡ true
subset-of-find [] t h = refl
subset-of-find (x ∷ s) t h =
    ground (arith, h x.thread, find_self x s, subset-of-find s t (λ k e. h k (ground arith)))

pub equal_iff :
    (s t : List Handle)
    → ((subset s t && subset t s) ≡ true) ↔ ((k : ℕ) → is_some (find s k) ≡ is_some (find t k))
equal_iff s t = (
  λ e k. ground (arith, subset-find s t k, subset-find t s k),
  λ same. ground (
    arith,
    subset-of-find s t (λ k e. ground (arith, same k)),
    subset-of-find t s (λ k e. ground (arith, same k)),
  ),
)

pub empty_iff : (s : List Handle) → (length s ≡ 0) ↔ ((k : ℕ) → find s k ≡ none)
empty_iff [] = (λ e k. refl, λ h. refl)
empty_iff (x ∷ s) = (λ e. absurd (omega arith), λ h. ground (arith, h x.thread, find_self x s))

pub first-find :
    (s : List Handle)
    → length s ≢ 0
    → (h : Handle) × (get_elem? s 0 ≡ some h) × (find s h.thread ≡ some h)
first-find [] n = absurd (n refl)
first-find (x ∷ s) n = (x, refl, find_self x s)

pub below-find :
    (s : List Handle) (i : ℕ)
    → i < length s
    → (h : Handle) × (get_elem? s i ≡ some h) × (is_some (find s h.thread) ≡ true)
below-find [] i n = absurd (omega arith)
below-find (x ∷ s) zero n = (x, refl, ground arith)
below-find (x ∷ s) (suc i) n =
    let (h, there, found) = below-find s i (omega arith) in (h, there, ground arith)

pub find-position :
    (s : List Handle) (k : ℕ) (h : Handle)
    → find s k ≡ some h
    → (i : ℕ) × (i < length s) × (get_elem? s i ≡ some h)
find-position [] k h e = absurd (ground arith)
find-position (x ∷ s) k h e = elim (Bool-cases (x.thread == k)) [
  | inl here ↦ (0, omega arith, ground arith)
  | inr away ↦
      let (i, below, there) = find-position s k h (ground arith) in (suc i, omega arith, there)
]

abbrev pub list_sets : PblSets
list_sets = record {
  PblSet = List Handle;
  new_hash_set = [];
  get_element = find;
  add = add;
  remove_element = λ s k. (is_some (find s k), remove s k);
  add_all = add_all;
  clear = λ _. [];
  equals = λ s t. subset s t && subset t s;
  size = length;
  get = get_elem?;
  get_element-new = λ k. refl;
  get_element-thread = find-thread;
  get_element-add = find-add;
  removed = λ s k. refl;
  get_element-remove = find-remove;
  get_element-add_all = find-add_all;
  get_element-clear = λ s k. refl;
  equals_iff = equal_iff;
  size_zero_iff = empty_iff;
  get_first = first-find;
  get_below = below-find;
  get_all = find-position;
}
