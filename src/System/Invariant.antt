-- ===== src/System/Invariant.antt =====
-- The invariant of the daemon: what the sets say of each handler fits where its thread stands.
use pm_lab_tools.Prelude.{
  ℕ, Bool, true, false, ◌≡◌, inl, inr, none, some, arith, ◌==◌, ==_iff, Bool-cases,
}
use pm_lab_tools.Sync.Handles.{Handle}
use pm_lab_tools.Sync.Sets.{PblSets}
use pm_lab_tools.Sync.Phase.{
  Phase, Phases, absent, pending, update, renew, registered, holding_up, Shows,
}
use pm_lab_tools.Sync.{Sync, sig_hnd}
use pm_lab_tools.System.{
  ReaderPc, HandlerPc, CollectorPc, r_check, r_read, r_publish, r_reset, unborn, handshake, refused,
  registering, inc_notify, welcome, h_test, h_wait, h_check, copying, ready, ready_notify, leaving,
  dec_notify, ending, ended, c_join,
}

-- What the phase of a thread is, by where it stands.
abbrev pub Fits : Bool → HandlerPc → Phase → Type 0
Fits run unborn p = p ≡ absent
Fits run handshake p = p ≡ absent
Fits run refused p = p ≡ absent
Fits run registering p = p ≡ absent
Fits run inc_notify p = (h : Handle) × (registered p ≡ some h)
Fits run welcome p = (h : Handle) × (registered p ≡ some h)
Fits run h_test p = (h : Handle) × (registered p ≡ some h)
Fits run h_wait p = (h : Handle) × (registered p ≡ some h)
Fits run h_check p = (h : Handle) × (registered p ≡ some h) × (run ≡ true → p ≡ pending h)
Fits run copying p = (h : Handle) × (p ≡ pending h)
Fits run ready p = (h : Handle) × (p ≡ pending h)
Fits run ready_notify p = (h : Handle) × (registered p ≡ some h)
Fits run leaving p = (h : Handle) × (registered p ≡ some h)
Fits run dec_notify p = registered p ≡ none
Fits run ending p = registered p ≡ none
Fits run ended p = registered p ≡ none

-- From the barrier to the next round no handler is pending.
abbrev pub Quiet : ReaderPc → Phases → Type 0
Quiet r_check ph = (k : ℕ) → holding_up (ph k) ≡ none
Quiet r_read ph = (k : ℕ) → holding_up (ph k) ≡ none
Quiet r_publish ph = (k : ℕ) → holding_up (ph k) ≡ none
Quiet r_reset ph = (k : ℕ) → holding_up (ph k) ≡ none
Quiet _ ph = Unit

-- The thread has left the sets.
abbrev pub at_end : HandlerPc → Bool
at_end dec_notify = true
at_end ending = true
at_end ended = true
at_end _ = false

-- The thread that is being joined has left all sets, and is at its end.
abbrev pub Collecting : CollectorPc → (ℕ → HandlerPc) → Phases → Type 0
Collecting (c_join h) hs ph = (ph h.thread ≡ absent) × (at_end (hs h.thread) ≡ true)
Collecting _ hs ph = Unit

-- Two families that are in step stay so when both change at one index, or the first alone does.
pub update_both {ℓ} :
    {A B : Type 0} (P : A → B → Type ℓ) (f : ℕ → A) (g : ℕ → B) (i : ℕ) (a : A) (b : B)
    → ((k : ℕ) → P (f k) (g k))
    → P a b
    → (k : ℕ) → P (update f i a k) (update g i b k)
update_both P f g i a b h new k = elim (Bool-cases (i == k)) [
  | inl here ↦ rw here new
  | inr away ↦ rw away (h k)
]

pub update_first {ℓ} :
    {A B : Type 0} (P : A → B → Type ℓ) (f : ℕ → A) (g : ℕ → B) (i : ℕ) (a : A)
    → ((k : ℕ) → P (f k) (g k))
    → P a (g i)
    → (k : ℕ) → P (update f i a k) (g k)
update_first P f g i a h new k = elim (Bool-cases (i == k)) [
  | inl here ↦ let same : i ≡ k = (==_iff i k).0 here in rw here (rw (← same) new)
  | inr away ↦ rw away (h k)
]

pub update_second {ℓ} :
    {A B : Type 0} (P : A → B → Type ℓ) (f : ℕ → A) (g : ℕ → B) (i : ℕ) (b : B)
    → ((k : ℕ) → P (f k) (g k))
    → P (f i) b
    → (k : ℕ) → P (f k) (update g i b k)
update_second P f g i b h new = update_first (λ x y. P y x) g f i b h new

-- A stop takes no claim away.
pub Fits-stop : (run : Bool) (pc : HandlerPc) (p : Phase) → Fits run pc p → Fits false pc p
Fits-stop run h_check p f = (f.0, f.1, λ e. cc)
Fits-stop run _ p f = f

-- A new round takes no claim away.
pub Fits-renew : (run : Bool) (pc : HandlerPc) (p : Phase) → Fits run pc p → Fits run pc (renew p)
Fits-renew run h_check p f = (f.0, ground arith, λ e. ground (arith, f.2 e))
Fits-renew run unborn p f = ground arith
Fits-renew run handshake p f = ground arith
Fits-renew run refused p f = ground arith
Fits-renew run registering p f = ground arith
Fits-renew run dec_notify p f = ground arith
Fits-renew run ending p f = ground arith
Fits-renew run ended p f = ground arith
Fits-renew run _ p f = (f.0, ground arith)

pub Quiet-update :
    (r : ReaderPc) (ph : Phases) (t : ℕ) (p : Phase)
    → holding_up p ≡ none
    → Quiet r ph
    → Quiet r (update ph t p)
Quiet-update r_check ph t p h q = λ k. ground (arith, q k)
Quiet-update r_read ph t p h q = λ k. ground (arith, q k)
Quiet-update r_publish ph t p h q = λ k. ground (arith, q k)
Quiet-update r_reset ph t p h q = λ k. ground (arith, q k)
Quiet-update _ ph t p h q = tt

-- A thread that is not at its end is not the one that is being joined.
pub Collecting-update :
    (c : CollectorPc) (hs : ℕ → HandlerPc) (ph : Phases) (t : ℕ) (pc : HandlerPc) (p : Phase)
    → at_end (hs t) ≡ false
    → Collecting c hs ph
    → Collecting c (update hs t pc) (update ph t p)
Collecting-update (c_join h) hs ph t pc p n v = ground arith
Collecting-update _ hs ph t pc p n v = tt

pub Collecting-move :
    (c : CollectorPc) (hs : ℕ → HandlerPc) (ph : Phases) (t : ℕ) (pc : HandlerPc)
    → at_end (hs t) ≡ false
    → Collecting c hs ph
    → Collecting c (update hs t pc) ph
Collecting-move (c_join h) hs ph t pc n v = ground arith
Collecting-move _ hs ph t pc n v = tt

pub Collecting-renew :
    (c : CollectorPc) (hs : ℕ → HandlerPc) (ph : Phases)
    → Collecting c hs ph
    → Collecting c hs (λ k. renew (ph k))
Collecting-renew (c_join h) hs ph v = ground arith
Collecting-renew _ hs ph v = tt

pub Collecting-end :
    (c : CollectorPc) (hs : ℕ → HandlerPc) (ph : Phases) (t : ℕ) (pc : HandlerPc)
    → at_end pc ≡ true
    → Collecting c hs ph
    → Collecting c (update hs t pc) ph
Collecting-end (c_join h) hs ph t pc e v = ground arith
Collecting-end _ hs ph t pc e v = tt

module _ (lib : PblSets) where
  pub record Inv (sync : Sync lib) (r : ReaderPc) (hs : ℕ → HandlerPc) (c : CollectorPc)
      (ph : Phases) : Type 0 where
    pub shows : Shows lib sync ph
    pub fits : (t : ℕ) → Fits sync.running (hs t) (ph t)
    pub quiet : Quiet r ph
    pub collecting : Collecting c hs ph

  -- `running` is cleared.
  pub sig_hnd-Inv :
      (sync : Sync lib) (r : ReaderPc) (hs : ℕ → HandlerPc) (c : CollectorPc) (ph : Phases)
      → Inv sync r hs c ph
      → Inv (sig_hnd lib sync) r hs c ph
  unfolding sig_hnd
  sig_hnd-Inv sync r hs c ph v = record {
    shows = v.shows;
    fits = λ t. Fits-stop sync.running (hs t) (ph t) (v.fits t);
    quiet = v.quiet;
    collecting = v.collecting;
  }
