-- ===== src/Sync/Debug/Sheet.antt =====
-- What `debug_set` prints of a set.
use pm_lab_tools.Prelude.{
  ℕ, zero, suc, ◌+◌, ◌≤◌, ◌<◌, ◌≡◌, refl, Bool, true, false, ◌||◌, Option, none, some, List, [],
  ◌∷◌, map, arith, ◌==◌, ==_iff, is_some, if◌then◌else◌, Bool-cases, inl, inr,
}
use pm_lab_tools.Sync.Handles.{Handle}
use pm_lab_tools.Sync.Sets.{PblSets}
use pm_lab_tools.Sync.{returns}
use pm_lab_tools.Sync.Debug.{Printed, text, thread_id, debug_loop, debug_set}

abbrev pub contains : List ℕ → ℕ → Bool
contains [] k = false
contains (x ∷ xs) k = x == k || contains xs k

-- The line of a set: its ids, or a word.
abbrev pub line : List ℕ → List Printed
line [] = text "<empty>" ∷ []
line (x ∷ xs) = map thread_id (x ∷ xs)

bool_eq : {a b : Bool} → (a ≡ true → b ≡ true) → (b ≡ true → a ≡ true) → a ≡ b
bool_eq f g = ground (arith, f, g)

some_of {ℓ} : {A : Type ℓ} (o : Option A) → is_some o ≡ true → (a : A) × (o ≡ some a)
some_of none e = absurd (ground arith)
some_of (some a) e = (a, refl)

module _ (lib : PblSets) where
  open lib use {PblSet, size, get, get_element}

  -- The ids at so many positions of a set, from a position on.
  record Ids (set : PblSet) (i left : ℕ) : Type 0 where
    ids : List ℕ
    printed : debug_loop lib set i left ≡ returns (map thread_id ids)
    sound : (k : ℕ) → contains ids k ≡ true → is_some (get_element set k) ≡ true
    complete :
        (j : ℕ) (h : Handle)
        → get set j ≡ some h
        → i ≤ j
        → j < i + left
        → contains ids h.thread ≡ true
    some_left : left ≡ 0 → ids ≡ []
    none_left : ids ≡ [] → left ≡ 0

  loop-Ids : (set : PblSet) (i left : ℕ) → i + left ≡ size set → Ids set i left
  unfolding debug_loop
  loop-Ids set i zero e = record {
    ids = [];
    printed = refl;
    sound = λ k none_there. absurd (ground arith);
    complete = λ j h there from below. absurd (omega arith);
    some_left = λ z. refl;
    none_left = λ z. refl;
  }
  loop-Ids set i (suc left) e =
      let (h, at, found) = lib.get_below set i (omega arith) in
      let rest = loop-Ids set (suc i) left (omega arith) in
      record {
        ids = h.thread ∷ rest.ids;
        printed = rw (at, rest.printed) refl;
        sound = λ k there. elim (Bool-cases (h.thread == k)) [
          | inl here ↦ let same : h.thread ≡ k = (==_iff _ _).0 here in rw (← same) found
          | inr away ↦ rest.sound k (ground arith)
        ];
        complete = λ j h' there from below. elim (Bool-cases (i == j)) [
          | inl here ↦
              let same : i ≡ j = (==_iff i j).0 here in
              let there' : get set i ≡ some h' = rw same there in
              ground (arith, ==_iff h.thread h'.thread)
          | inr away ↦ ground (arith, rest.complete j h' there)
        ];
        some_left = λ z. absurd (omega arith);
        none_left = λ z. absurd (ground arith);
      }

  listed :
      (ids : List ℕ) (size_of : ℕ)
      → (size_of ≡ 0 → ids ≡ [])
      → (ids ≡ [] → size_of ≡ 0)
      → (if size_of == 0 then returns (text "<empty>" ∷ []) else returns (map thread_id ids))
        ≡ returns (line ids)
  listed [] zero s n = refl
  listed [] (suc m) s n = absurd (omega (arith, n refl))
  listed (x ∷ ids) zero s n = absurd (ground (arith, s refl))
  listed (x ∷ ids) (suc m) s n = ground arith

  -- `debug_set` returns, and the ids that it prints are those of the elements of the set.
  pub debug_set_lem :
      (set : PblSet)
      → (ids : List ℕ) × (debug_set lib set ≡ returns (line ids))
        × ((k : ℕ) → contains ids k ≡ is_some (get_element set k))
  unfolding debug_set
  debug_set_lem set =
      let r = loop-Ids set 0 (size set) (omega arith) in
      (
        r.ids,
        rw r.printed (listed r.ids (size set) r.some_left r.none_left),
        λ k. bool_eq (r.sound k) (λ there.
            let (h, found) = some_of (get_element set k) there in
            let (j, below, at) = lib.get_all set k h found in
            let same : h.thread ≡ k = lib.get_element-thread set k h found in
            rw same at (r.complete j h at (omega arith) (omega arith))),
      )
