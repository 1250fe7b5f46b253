-- ===== src/Process/Signal.antt =====
-- A signal that ends the process, and one that is lost.
use nyan_sd.Base.{ℕ, zero, suc, ◌≡◌, ◌≢◌, refl, sym, subst, ap, ◌∙◌, ◌⊎◌, inl, inr, true, arith}
use nyan_sd.Nyansd.Lifecycle as Lifecycle
use nyan_sd.Nyansd.Lifecycle.{
  absent, looping, dead, finished, idle, joining, Thread, Listener, IsValid, start_listener,
  stop_listener,
}
use nyan_sd.Nyansd.Lifecycle.Stop.{Stopping, stop_first, stop_second}
use nyan_sd.Process.{
  Phase, ready, started, waiting, woken, stopping, ended, Process, launched, signal_handler,
  notify_phase, IsOwnStep, Step, interrupt, spurious, start, wait, stop, finish, listen, Reach,
  IsQuiet, QuietReach, still, then_quiet, IsOver, Finishes,
}
use nyan_sd.Process.Shutdown.{Step-initial, IsSound, Reach-IsSound, Serves, at}

-- `main` has not been woken.
abbrev Early : Phase → Type 0
Early f = (f ≡ ready) ⊎ (f ≡ started) ⊎ (f ≡ waiting)

Step-Early : {p q : Process} → Early p.phase → (s : Step p q) → IsQuiet s → Early q.phase
Step-Early h (interrupt a e) o = absurd o
Step-Early h (spurious w a e) o = absurd o
Step-Early h (start f i e) o = ground arith
Step-Early h (wait f i e) o = ground arith
Step-Early h (stop f i e) o = ground arith
Step-Early h (finish f i e) o = ground arith
Step-Early h (listen s o' e) o = ground arith

QuietReach-Early : {p q : Process} → Early p.phase → QuietReach p q → Early q.phase
QuietReach-Early h still = h
QuietReach-Early h (then_quiet r s o) = Step-Early (QuietReach-Early h r) s o

-- A SIGINT that arrives before `main` is in `gCv.wait` is lost: whatever follows but for another
-- SIGINT or a wake-up without one, `main` does not get past the wait, so it never returns.
pub early_signal_lost :
    (p : Process) {q : Process}
    → (p.phase ≡ ready) ⊎ (p.phase ≡ started)
    → QuietReach (signal_handler p) q
    → (q.phase ≡ ready) ⊎ (q.phase ≡ started) ⊎ (q.phase ≡ waiting)
unfolding signal_handler notify_phase
early_signal_lost p h r = QuietReach-Early (kept p.phase h) r
  where
    kept : (f : Phase) → (f ≡ ready) ⊎ (f ≡ started) → Early (notify_phase f)
    kept ready h = inl refl
    kept started h = inr (inl refl)
    kept waiting h = ground arith
    kept woken h = ground arith
    kept stopping h = ground arith
    kept ended h = ground arith

-- What is left after `main` was woken while the thread is in its loop.
abbrev Woken : Process → Type 0
Woken p =
    (p.phase ≡ woken)
    × (p.listener.running ≡ true)
    × (p.listener.thread ≡ looping)
    × (p.listener.caller ≡ idle)

abbrev Stops : Thread → Process → Type 0
Stops t p = (p.phase ≡ stopping) × Stopping p.listener t

abbrev Returns : Process → Type 0
Returns p = (p.phase ≡ stopping) × (p.listener ≡ Lifecycle.initial)

signal_handler-kept :
    (p : Process) → (p.phase ≡ woken) ⊎ (p.phase ≡ stopping) → signal_handler p ≡ p
unfolding signal_handler notify_phase
signal_handler-kept p h = λ i. record p { phase = kept p.phase h i }
  where
    kept : (f : Phase) → (f ≡ woken) ⊎ (f ≡ stopping) → notify_phase f ≡ f
    kept ready h = refl
    kept started h = refl
    kept waiting h = ground arith
    kept woken h = refl
    kept stopping h = refl
    kept ended h = refl

Step-Returns : {p q : Process} → Returns p → Step p q → (q ≡ p) ⊎ IsOver q
Step-Returns {p} (f, l) (interrupt a e) = inl (e ∙ signal_handler-kept p (inr f))
Step-Returns h (spurious w a e) = ground arith
Step-Returns h (start f i e) = ground arith
Step-Returns h (wait f i e) = ground arith
Step-Returns h (stop f i e) = ground arith
Step-Returns h (finish f i e) = ground arith
Step-Returns {p} (f, l) (listen s o e) =
    inl (e ∙ ap (λ m. record p { listener = m }) (Step-initial l s o))

Step-Joins : {p q : Process} → Stops finished p → Step p q → (q ≡ p) ⊎ Returns q
Step-Joins {p} (f, l) (interrupt a e) = inl (e ∙ signal_handler-kept p (inr f))
Step-Joins h (spurious w a e) = ground arith
Step-Joins h (start f i e) = ground arith
Step-Joins h (wait f i e) = ground arith
Step-Joins h (stop f i e) = ground arith
Step-Joins h (finish f i e) = ground arith
Step-Joins {p} (f, l) (listen s o e) =
    inr (ap (λ q. q.phase) e ∙ f, ap (λ q. q.listener) e ∙ stop_second l s)

-- A round that is still going on may end the process.
Step-Stops :
    {p q : Process}
    → Stops looping p
    → Step p q
    → (q ≡ p) ⊎ Stops finished q ⊎ (q.listener.caller ≡ dead)
Step-Stops {p} (f, l) (interrupt a e) = inl (e ∙ signal_handler-kept p (inr f))
Step-Stops h (spurious w a e) = ground arith
Step-Stops h (start f i e) = ground arith
Step-Stops h (wait f i e) = ground arith
Step-Stops h (stop f i e) = ground arith
Step-Stops h (finish f i e) = ground arith
Step-Stops {p} (f, l) (listen s o e) = inr (elim (stop_first l s) [
  | inl h ↦
      inl
        (ap (λ q. q.phase) e ∙ f, subst (λ m. Stopping m finished) (sym (ap (λ q. q.listener) e)) h)
  | inr d ↦ inr (ap (λ q. q.listener.caller) e ∙ d)
])

Step-round :
    {l m : Listener}
    → (l.running ≡ true) × (l.thread ≡ looping) × (l.caller ≡ idle)
    → (s : Lifecycle.Step l m) → IsOwnStep s
    → (m ≡ l) ⊎ (m.caller ≡ dead)
Step-round h (Lifecycle.start i e) o = absurd o
Step-round h (Lifecycle.stop i e) o = absurd o
Step-round h (Lifecycle.bound t c e) o = ground arith
Step-round h (Lifecycle.bind_failed t c e) o = ground arith
Step-round h (Lifecycle.round t r c e) o = ground arith
Step-round h (Lifecycle.round_failed t c e) o = ground arith
Step-round h (Lifecycle.leave t r c e) o = ground arith
Step-round h (Lifecycle.joined t c e) o = ground arith

Step-Woken :
    {p q : Process} → Woken p → Step p q → (q ≡ p) ⊎ Stops looping q ⊎ (q.listener.caller ≡ dead)
unfolding stop_listener
Step-Woken {p} (f, running, thread, caller) (interrupt a e) =
    inl (e ∙ signal_handler-kept p (inl f))
Step-Woken h (spurious w a e) = ground arith
Step-Woken h (start f i e) = ground arith
Step-Woken h (wait f i e) = ground arith
Step-Woken h (stop f i e) = ground arith
Step-Woken h (finish f i e) = ground arith
Step-Woken {p} (f, running, thread, caller) (listen s o e) =
    elim (Step-round (running, thread, caller) s o) [
      | inl same ↦ inl (e ∙ ap (λ m. record p { listener = m }) same)
      | inr d ↦ inr (inr (ap (λ q. q.listener.caller) e ∙ d))
    ]

-- The states told apart by where `main` is.
phases_differ : {p q : Process} {f g : Phase} → p.phase ≡ f → q.phase ≡ g → (f ≡ g → ⊥) → q ≢ p
phases_differ pf qg d e = d (sym pf ∙ sym (ap (λ r. r.phase) e) ∙ qg)

over-Finishes : (k : ℕ) (p : Process) → IsOver p → Finishes k p
over-Finishes zero p h = h
over-Finishes (suc k) p h = inl h

-- A step that changes the state and does not end the process leads to one that finishes.
carry {ℓ} :
    {A : Type ℓ} {B : Type 0} (k : ℕ) (q : Process)
    → (B → Finishes k q)
    → A ⊎ B ⊎ (q.listener.caller ≡ dead)
    → A ⊎ Finishes k q
carry k q f (inl a) = inl a
carry k q f (inr (inl b)) = inr (f b)
carry k q f (inr (inr d)) = inr (over-Finishes k q (inr d))

Returns-Finishes : (p : Process) → Returns p → Finishes 1 p
Returns-Finishes p (f, l) = inr (
  (
    record p { phase = ended },
    finish f (ap (λ m. m.caller) l) refl,
    phases_differ f refl (λ e. ground arith),
    λ d. ground arith,
  ),
  λ q s. Step-Returns (f, l) s,
)

weaken {ℓ κ} : {A : Type ℓ} {B C : Type κ} → (B → C) → A ⊎ B → A ⊎ C
weaken f (inl a) = inl a
weaken f (inr b) = inr (f b)

Joins-Finishes : (p : Process) → Stops finished p → Finishes 2 p
Joins-Finishes p (f, (running, thread, caller)) = inr (
  (
    record p { listener = record p.listener { thread = absent; caller = idle } },
    listen (Lifecycle.joined thread caller refl) tt refl,
    λ e. ground (arith, ap (λ r. r.listener) e),
    λ d. ground arith,
  ),
  λ q s. weaken (Returns-Finishes q) (Step-Joins (f, (running, thread, caller)) s),
)

Stops-Finishes : (p : Process) → Stops looping p → Finishes 3 p
Stops-Finishes p (f, (running, thread, caller)) = inr (
  (
    record p { listener = record p.listener { thread = finished } },
    listen (Lifecycle.leave thread running (ground arith) refl) tt refl,
    λ e. ground (arith, ap (λ r. r.listener) e),
    λ d. ground arith,
  ),
  λ q s. carry 2 q (Joins-Finishes q) (Step-Stops (f, (running, thread, caller)) s),
)

Woken-Finishes : (p : Process) → Woken p → Finishes 4 p
Woken-Finishes p (f, running, thread, caller) = inr (
  (
    record { phase = stopping; listener = stop_listener p.listener },
    stop f caller refl,
    phases_differ f refl (λ e. ground arith),
    λ d. unfold stop_listener in ground arith,
  ),
  λ q s. carry 3 q (Stops-Finishes q) (Step-Woken (f, running, thread, caller) s),
)

-- A SIGINT that arrives while `main` is in the wait, with the listener's thread in its loop, ends
-- the process: within four steps that change the state, whichever happen, and however many signals
-- and rounds of the thread come between, `main` has returned, unless a round of the thread has
-- ended the process first; until then there is such a step that does not end it.
pub signal-Finishes :
    {p : Process}
    → Reach launched p
    → p.phase ≡ waiting
    → p.listener.thread ≡ looping
    → p.listener.caller ≢ dead
    → Finishes 4 (signal_handler p)
unfolding signal_handler notify_phase
signal-Finishes {p} r f t alive =
    let sound : IsSound p = Reach-IsSound r in
    let serves : Serves p.listener = at p.listener f sound.expected in
    let caller : p.listener.caller ≡ idle = ground arith in
    let valid : IsValid p.listener = sound.listener_valid in
    Woken-Finishes (signal_handler p) (ap notify_phase f, valid.loops_running t caller, t, caller)
