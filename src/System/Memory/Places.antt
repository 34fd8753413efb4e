-- ===== src/System/Memory/Places.antt =====
-- Where the handles that `inc_available_handlers` allocates are: a view beside the state, moved by
-- the steps as the phases are, and the invariant that ties it to the state.
use pm_lab_tools.Prelude.{
  ℕ, Bool, true, false, ◌≡◌, inl, inr, Option, none, some, arith, Option-cases,
}
use pm_lab_tools.Sync.Handles.{Handle}
use pm_lab_tools.Sync.Phase.{
  Phase, absent, idle, pending, finished, dead, Phases, update, renew, complete, bury,
}
use pm_lab_tools.System.{CollectorPc, c_test, c_join, c_free, c_end, MainPc, m_finish, m_end}

-- The place of a block of memory: not allocated; held by the sets, as the handle of a thread; with
-- the thread that collects; or lost when that thread was cancelled.
pub data Place : Type 0 where
  unused : Place
  held_by : ℕ → Place
  at_collector : Place
  lost : Place

abbrev pub is_allocated : Place → Bool
is_allocated unused = false
is_allocated _ = true

-- The handle that the sets hold of a thread.
abbrev pub held : Phase → Option Handle
held absent = none
held (idle h) = some h
held (pending h) = some h
held (finished h) = some h
held (dead h) = some h

abbrev pub address : Option Handle → Option ℕ
address none = none
address (some h) = some h.addr

-- The handle that the collecting thread holds.
abbrev pub taken_out : CollectorPc → Option Handle
taken_out (c_join h) = some h
taken_out (c_free h) = some h
taken_out _ = none

-- `main` has cancelled the collecting thread.
abbrev pub IsCancelled : MainPc → Type 0
IsCancelled m_finish = Unit
IsCancelled m_end = Unit
IsCancelled _ = ⊥

pub held-renew : (p : Phase) → held (renew p) ≡ held p
held-renew p = ground arith

pub held-complete : (p : Phase) → held (complete p) ≡ held p
held-complete p = ground arith

pub held-bury : (p : Phase) → held (bury p) ≡ held p
held-bury p = ground arith

-- Places, what is allocated, the phases, and the threads that free and cancel, are in step.
pub record Kept (allocated : ℕ → Bool) (places : ℕ → Place) (ph : Phases) (c : CollectorPc)
    (m : MainPc) : Type 0 where
  pub counted : (a : ℕ) → allocated a ≡ is_allocated (places a)
  pub of_set :
      (t : ℕ) (h : Handle) → held (ph t) ≡ some h → (places h.addr ≡ held_by t) × (h.thread ≡ t)
  pub in_set : (a t : ℕ) → places a ≡ held_by t → address (held (ph t)) ≡ some a
  pub of_out : (h : Handle) → taken_out c ≡ some h → places h.addr ≡ at_collector
  pub is_out : (a : ℕ) → places a ≡ at_collector → address (taken_out c) ≡ some a
  pub is_lost : (a : ℕ) → places a ≡ lost → IsCancelled m

module _ {allocated : ℕ → Bool} {places : ℕ → Place} {ph : Phases} {c : CollectorPc} {m : MainPc}
    (v : Kept allocated places ph c m) where
  -- The phases change, but no handle does.
  pub same_handles-Kept :
      (ph' : Phases) → ((t : ℕ) → held (ph' t) ≡ held (ph t)) → Kept allocated places ph' c m
  same_handles-Kept ph' same = record {
    counted = v.counted;
    of_set = λ t h e. v.of_set t h (ground (arith, same t));
    in_set = λ a t e. ground (arith, same t, v.in_set a t e);
    of_out = v.of_out;
    is_out = v.is_out;
    is_lost = v.is_lost;
  }

  -- The collecting thread goes on with the handle that it holds.
  pub same_out-Kept :
      (c' : CollectorPc) → taken_out c' ≡ taken_out c → Kept allocated places ph c' m
  same_out-Kept c' same = record {
    counted = v.counted;
    of_set = v.of_set;
    in_set = v.in_set;
    of_out = λ h e. v.of_out h (ground arith);
    is_out = λ a e. ground (arith, v.is_out a e);
    is_lost = v.is_lost;
  }

  pub same_main-Kept :
      (m' : MainPc) → (IsCancelled m → IsCancelled m') → Kept allocated places ph c m'
  same_main-Kept m' keeps = record {
    counted = v.counted;
    of_set = v.of_set;
    in_set = v.in_set;
    of_out = v.of_out;
    is_out = v.is_out;
    is_lost = λ a e. keeps (v.is_lost a e);
  }

  -- `malloc` gives a new handle, which goes into a set.
  pub register-Kept :
      (t addr : ℕ)
      → allocated addr ≡ false
      → ph t ≡ absent
      → Kept
          (update allocated addr true)
          (update places addr (held_by t))
          (update ph t (idle (record { addr = addr; thread = t })))
          c
          m
  register-Kept t addr free e = record {
    counted = λ a. ground (arith, v.counted a);
    of_set = λ u h f. ground (arith, v.of_set u h, v.counted addr);
    in_set = λ a u f. ground (arith, v.in_set a u);
    of_out = λ h f. ground (arith, v.of_out h f, v.counted addr);
    is_out = λ a f. ground (arith, v.is_out a);
    is_lost = λ a f. v.is_lost a (ground arith);
  }

  -- A dead handler's handle goes from the sets to the collecting thread.
  pub collect-Kept :
      (h : Handle)
      → taken_out c ≡ none
      → ph h.thread ≡ dead h
      → Kept allocated (update places h.addr at_collector) (update ph h.thread absent) (c_join h) m
  collect-Kept h none_out e = record {
    counted = λ a. ground (arith, v.counted a, v.of_set h.thread h);
    of_set = λ u k f. ground (arith, v.of_set u k, v.of_set h.thread h);
    in_set = λ a u f. ground (arith, v.in_set a u);
    of_out = λ k f. ground arith;
    is_out = λ a f. ground (arith, v.is_out a);
    is_lost = λ a f. v.is_lost a (ground arith);
  }

  pub free-Kept :
      (h : Handle)
      → taken_out c ≡ some h
      → Kept (update allocated h.addr false) (update places h.addr unused) ph c_test m
  free-Kept h out = record {
    counted = λ a. ground (arith, v.counted a);
    of_set = λ u k f. ground (arith, v.of_set u k, v.of_out h out);
    in_set = λ a u f. v.in_set a u (ground arith);
    of_out = λ k f. ground arith;
    is_out = λ a f. ground (arith, v.is_out a);
    is_lost = λ a f. v.is_lost a (ground arith);
  }

-- What a cancelled thread held is lost.
abbrev pub lose : CollectorPc → (ℕ → Place) → ℕ → Place
lose c places = elim (taken_out c) [ none ↦ places | some h ↦ update places h.addr lost ]

pub cancel-Kept :
    {allocated : ℕ → Bool} {places : ℕ → Place} {ph : Phases} {c : CollectorPc} {m : MainPc}
    → Kept allocated places ph c m
    → Kept allocated (lose c places) ph c_end m_finish
cancel-Kept {allocated} {places} {ph} {c} {m} v = elim (Option-cases (taken_out c)) [
  | inl none_out ↦ record {
    counted = λ a. ground (arith, v.counted a);
    of_set = λ u k f. ground (arith, v.of_set u k);
    in_set = λ a u f. ground (arith, v.in_set a u);
    of_out = λ k f. ground arith;
    is_out = λ a f. ground (arith, v.is_out a);
    is_lost = λ a f. tt;
  }
  | inr (h, out) ↦ record {
    counted = λ a. ground (arith, v.counted a, v.of_out h out);
    of_set = λ u k f. ground (arith, v.of_set u k, v.of_out h out);
    in_set = λ a u f. ground (arith, v.in_set a u);
    of_out = λ k f. ground arith;
    is_out = λ a f. ground (arith, v.is_out a);
    is_lost = λ a f. tt;
  }
]
