-- ===== src/Process/Shutdown.antt =====
-- How the process ends, and how it does not.
use nyan_sd.Base.{◌≡◌, ◌≢◌, refl, sym, subst, ap, ◌∙◌, ◌⊎◌, arith}
use nyan_sd.Nyansd.Lifecycle as Lifecycle
use nyan_sd.Nyansd.Lifecycle.{
  absent, created, looping, finished, idle, joining, dead, Listener, start_listener, stop_listener,
  IsValid, Step-IsValid,
}
use nyan_sd.Nyansd.Lifecycle.Stop.{Reach-IsValid}
use nyan_sd.Process.{
  Phase, ready, started, waiting, woken, stopping, ended, Process, launched, signal_handler,
  notify_phase, IsOwnStep, IsListen, Step, interrupt, spurious, start, wait, stop, finish, listen,
  Reach, here, next,
}

-- What each statement of `main` finds: no listener before the first call and after the last; in
-- between a thread that has not bound its port yet, or is in its loop, until `stopListener`.
abbrev pub Serves : Listener → Type 0
Serves l = ((l.caller ≡ idle) ⊎ (l.caller ≡ dead)) × ((l.thread ≡ created) ⊎ (l.thread ≡ looping))

abbrev pub Ends : Listener → Type 0
Ends l =
    ((l.caller ≡ joining) × (l.thread ≢ absent))
    ⊎ ((l.caller ≡ dead) × ((l.thread ≡ created) ⊎ (l.thread ≡ looping)))
    ⊎ (l ≡ Lifecycle.initial)

abbrev pub Expects : Phase → Listener → Type 0
Expects ready l = l ≡ Lifecycle.initial
Expects started l = Serves l
Expects waiting l = Serves l
Expects woken l = Serves l
Expects stopping l = Ends l
Expects ended l = l ≡ Lifecycle.initial

Step-Serves :
    {l m : Listener} → IsValid l → Serves l → (s : Lifecycle.Step l m) → IsOwnStep s → Serves m
Step-Serves v h (Lifecycle.start i e) o = absurd o
Step-Serves v h (Lifecycle.stop i e) o = absurd o
Step-Serves v h (Lifecycle.bound t c e) o = ground arith
Step-Serves v h (Lifecycle.bind_failed t c e) o = ground arith
Step-Serves v h (Lifecycle.round t r c e) o = ground arith
Step-Serves v h (Lifecycle.round_failed t c e) o = ground arith
Step-Serves v h (Lifecycle.leave t r c e) o = ground arith
Step-Serves v h (Lifecycle.joined t c e) o = ground arith

Step-Ends : {l m : Listener} → IsValid l → Ends l → (s : Lifecycle.Step l m) → IsOwnStep s → Ends m
Step-Ends v h (Lifecycle.start i e) o = absurd o
Step-Ends v h (Lifecycle.stop i e) o = absurd o
Step-Ends v h (Lifecycle.bound t c e) o = ground arith
Step-Ends v h (Lifecycle.bind_failed t c e) o = ground arith
Step-Ends v h (Lifecycle.round t r c e) o = ground arith
Step-Ends v h (Lifecycle.round_failed t c e) o = ground arith
Step-Ends v h (Lifecycle.leave t r c e) o = ground arith
Step-Ends v h (Lifecycle.joined t c e) o = ground arith

pub Step-initial :
    {l m : Listener} → l ≡ Lifecycle.initial → (s : Lifecycle.Step l m) → IsOwnStep s → m ≡ l
Step-initial h (Lifecycle.start i e) o = absurd o
Step-initial h (Lifecycle.stop i e) o = absurd o
Step-initial h (Lifecycle.bound t c e) o = ground arith
Step-initial h (Lifecycle.bind_failed t c e) o = ground arith
Step-initial h (Lifecycle.round t r c e) o = ground arith
Step-initial h (Lifecycle.round_failed t c e) o = ground arith
Step-initial h (Lifecycle.leave t r c e) o = ground arith
Step-initial h (Lifecycle.joined t c e) o = ground arith

Step-Expects :
    {l m : Listener}
    → (f : Phase) → IsValid l
    → Expects f l
    → (s : Lifecycle.Step l m) → IsOwnStep s
    → Expects f m
Step-Expects ready v h s o = Step-initial h s o ∙ h
Step-Expects started v h s o = Step-Serves v h s o
Step-Expects waiting v h s o = Step-Serves v h s o
Step-Expects woken v h s o = Step-Serves v h s o
Step-Expects stopping v h s o = Step-Ends v h s o
Step-Expects ended v h s o = Step-initial h s o ∙ h

pub record IsSound (p : Process) : Type 0 where
  pub listener_valid : IsValid p.listener
  pub expected : Expects p.phase p.listener

pub at : (l : Listener) {f g : Phase} → f ≡ g → Expects f l → Expects g l
at l e h = subst (λ f. Expects f l) e h

notify_phase-Expects : (l : Listener) (f : Phase) → Expects f l → Expects (notify_phase f) l
unfolding notify_phase
notify_phase-Expects l ready h = h
notify_phase-Expects l started h = h
notify_phase-Expects l waiting h = h
notify_phase-Expects l woken h = h
notify_phase-Expects l stopping h = h
notify_phase-Expects l ended h = h

start_listener-Serves : (l : Listener) → l ≡ Lifecycle.initial → Serves (start_listener l).0
unfolding start_listener
start_listener-Serves l h = ground arith

stop_listener-Ends : (l : Listener) → l.caller ≡ idle → Serves l → Ends (stop_listener l)
unfolding stop_listener
stop_listener-Ends l i h = ground arith

Step-IsSound : {p q : Process} → IsSound p → Step p q → IsSound q
unfolding signal_handler
Step-IsSound {p} v (interrupt a e) = subst IsSound (sym e) (record {
  listener_valid = v.listener_valid;
  expected = notify_phase-Expects p.listener p.phase v.expected;
})
Step-IsSound {p} v (spurious w a e) =
    subst IsSound (sym e)
      (record { listener_valid = v.listener_valid; expected = at p.listener w v.expected })
Step-IsSound {p} v (start f i e) = subst IsSound (sym e) (record {
  listener_valid = Step-IsValid v.listener_valid (Lifecycle.start i refl);
  expected = start_listener-Serves p.listener (at p.listener f v.expected);
})
Step-IsSound {p} v (wait f i e) =
    subst IsSound (sym e)
      (record { listener_valid = v.listener_valid; expected = at p.listener f v.expected })
Step-IsSound {p} v (stop f i e) = subst IsSound (sym e) (record {
  listener_valid = Step-IsValid v.listener_valid (Lifecycle.stop i refl);
  expected = stop_listener-Ends p.listener i (at p.listener f v.expected);
})
Step-IsSound {p} v (finish f i e) = subst IsSound (sym e) (record {
  listener_valid = v.listener_valid;
  expected = ended_listener (at p.listener f v.expected);
})
  where
    ended_listener : Ends p.listener → p.listener ≡ Lifecycle.initial
    ended_listener h = ground arith
Step-IsSound {p} v (listen s o e) = subst IsSound (sym e) (record {
  listener_valid = Step-IsValid v.listener_valid s;
  expected = Step-Expects p.phase v.listener_valid v.expected s o;
})

pub Reach-IsSound : {p : Process} → Reach launched p → IsSound p
Reach-IsSound here = record { listener_valid = Reach-IsValid Lifecycle.here; expected = refl }
Reach-IsSound (next r s) = Step-IsSound (Reach-IsSound r) s

Step-listener :
    {p q : Process}
    → Lifecycle.Reach Lifecycle.initial p.listener
    → Step p q
    → Lifecycle.Reach Lifecycle.initial q.listener
unfolding signal_handler
Step-listener r (interrupt a e) =
    subst (λ q. Lifecycle.Reach Lifecycle.initial q.listener) (sym e) r
Step-listener r (spurious w a e) =
    subst (λ q. Lifecycle.Reach Lifecycle.initial q.listener) (sym e) r
Step-listener r (start f i e) = Lifecycle.next r (Lifecycle.start i (ap (λ q. q.listener) e))
Step-listener r (wait f i e) = subst (λ q. Lifecycle.Reach Lifecycle.initial q.listener) (sym e) r
Step-listener r (stop f i e) = Lifecycle.next r (Lifecycle.stop i (ap (λ q. q.listener) e))
Step-listener r (finish f i e) = subst (λ q. Lifecycle.Reach Lifecycle.initial q.listener) (sym e) r
Step-listener r (listen s o e) =
    subst (λ q. Lifecycle.Reach Lifecycle.initial q.listener) (sym e) (Lifecycle.next r s)

Reach-listener : {p : Process} → Reach launched p → Lifecycle.Reach Lifecycle.initial p.listener
Reach-listener here = Lifecycle.here
Reach-listener (next r s) = Step-listener (Reach-listener r) s

expected-dead :
    (f : Phase) (l : Listener)
    → Expects f l
    → l.caller ≡ dead
    → (l.thread ≡ created) ⊎ (l.thread ≡ looping)
expected-dead ready l h d = ground arith
expected-dead started l h d = ground arith
expected-dead waiting l h d = ground arith
expected-dead woken l h d = ground arith
expected-dead stopping l h d = ground arith
expected-dead ended l h d = ground arith

-- No signal, wake-up or statement of `main` ends the process.
Step-dead :
    {p q : Process}
    → IsSound p
    → (s : Step p q) → p.listener.caller ≢ dead
    → q.listener.caller ≡ dead
    → IsListen s
unfolding signal_handler
Step-dead {p} v (interrupt a e) alive d = absurd (alive (sym (ap (λ r. r.listener.caller) e) ∙ d))
Step-dead v (spurious w a e) alive d = absurd (alive (sym (ap (λ r. r.listener.caller) e) ∙ d))
Step-dead {p} v (start f i e) alive d =
    absurd
      (starts p.listener (at p.listener f v.expected) (sym (ap (λ r. r.listener.caller) e) ∙ d))
  where
    starts : (l : Listener) → l ≡ Lifecycle.initial → (start_listener l).0.caller ≢ dead
    starts l h d = unfold start_listener in ground arith
Step-dead v (wait f i e) alive d = absurd (alive (sym (ap (λ r. r.listener.caller) e) ∙ d))
Step-dead {p} v (stop f i e) alive d =
    absurd
      (stops p.listener i (at p.listener f v.expected) (sym (ap (λ r. r.listener.caller) e) ∙ d))
  where
    stops : (l : Listener) → l.caller ≡ idle → Serves l → (stop_listener l).caller ≢ dead
    stops l i h d = unfold stop_listener in ground arith
Step-dead v (finish f i e) alive d = absurd (alive (sym (ap (λ r. r.listener.caller) e) ∙ d))
Step-dead v (listen s o e) alive d = tt

-- `main` drives the listener by the listener's own steps, in whatever order signals, wake-ups and
-- the thread's steps come: each listener that a process reaches is one that the listener's steps
-- reach. No signal, wake-up or statement of `main` ends the process; when it is gone before its
-- `return 0`, it is gone while the thread has not set `running`, as when `bind` throws, or is in
-- its loop, as when a round reads outside the buffer. Past the `return 0` there is no thread.
pub Reach_lem :
    {p : Process}
    → Reach launched p
    → Lifecycle.Reach Lifecycle.initial p.listener
      × ((q : Process) (s : Step p q)
          → p.listener.caller ≢ dead
          → q.listener.caller ≡ dead
          → IsListen s)
      × (p.listener.caller ≡ dead → (p.listener.thread ≡ created) ⊎ (p.listener.thread ≡ looping))
      × (p.phase ≡ ended → p.listener ≡ Lifecycle.initial)
Reach_lem {p} r = (
  Reach-listener r,
  λ q s. Step-dead (Reach-IsSound r) s,
  expected-dead p.phase p.listener (Reach-IsSound r).expected,
  λ e. at p.listener e (Reach-IsSound r).expected,
)
