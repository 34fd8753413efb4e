-- ===== src/Sync/Handles.antt =====
-- daemon/sync.c: the elements of the handler sets, and the two functions that the sets are given
-- to compare and to hash them.
use pm_lab_tools.Prelude.{
  ℕ, zero, suc, ◌≡◌, ◌↔◌, arith, Option, none, some, ltb, ◌==◌, if◌then◌else◌,
}
use pm_lab_tools.Prelude.Int.{ℤ, pos, negsuc, to_int32}

-- A `pthread_t *`: its address, and the `pthread_t` found there.
pub record Handle : Type 0 where
  pub addr : ℕ
  pub thread : ℕ

-- `pthread_hash`: `*(int *)element`, the low four bytes of the `pthread_t` as an `int`.
unfoldable pub pthread_hash : Handle → ℤ
pthread_hash h = to_int32 h.thread

-- `pthread_compare`. `none` is a NULL argument; `pthread_equal` is equality of the two ids.
unfoldable pub pthread_compare : Option Handle → Option Handle → ℤ
pthread_compare none next = pos 1
pthread_compare (some p) none = negsuc 0
pthread_compare (some p) (some n) =
    if p.thread == n.thread then pos 0 else if ltb p.thread n.thread then negsuc 0 else pos 1

-- The sign of a comparison's result, turned round.
abbrev pub flip_sign : ℤ → ℤ
flip_sign (pos zero) = pos 0
flip_sign (pos (suc n)) = negsuc n
flip_sign (negsuc n) = pos (suc n)

-- The two functions fit together as the set library needs it: two thread ids compare equal exactly
-- if they are the same id, a comparison the other way round has the opposite sign, and handles
-- that compare equal have the same hash.
pub pthread_compare_lem :
    (p n : Handle)
    → ((pthread_compare (some p) (some n) ≡ pos 0) ↔ (p.thread ≡ n.thread))
      × (pthread_compare (some n) (some p) ≡ flip_sign (pthread_compare (some p) (some n)))
      × (pthread_compare (some p) (some n) ≡ pos 0 → pthread_hash p ≡ pthread_hash n)
unfolding pthread_compare pthread_hash
pthread_compare_lem p n = (ground arith, ground arith, λ e. ground arith)
