-- ===== src/Process.antt =====
-- `main` of server/nyansd_server.cpp and of daemon/nyansd_daemon.cpp from `std::signal` on: it
-- starts the listener, waits for a signal on a condition variable, and stops the listener.
pub mod Shutdown
pub mod Signal
use nyan_sd.Base.{ℕ, zero, suc, ◌≡◌, ◌≢◌, ◌⊎◌}
use nyan_sd.Nyansd.Lifecycle as Lifecycle
use nyan_sd.Nyansd.Lifecycle.{idle, dead, Listener, start_listener, stop_listener}

-- Where `main` is: before `startListener`; between it and `gCv.wait`; in the wait; between it and
-- `stopListener`; in that call; past its `return 0`.
pub data Phase : Type 0 where
  ready started waiting woken stopping ended : Phase

pub record Process : Type 0 where
  pub phase : Phase
  pub listener : Listener

abbrev pub launched : Process
launched = record { phase = ready; listener = Lifecycle.initial }

-- What `gCv.notify_all()` does to where `main` is.
notify_phase : Phase → Phase
notify_phase ready = ready
notify_phase started = started
notify_phase waiting = woken
notify_phase woken = woken
notify_phase stopping = stopping
notify_phase ended = ended

unfoldable pub signal_handler : Process → Process
unfolding notify_phase
signal_handler p = record p { phase = notify_phase p.phase }

-- The steps of the listener that are not calls of `main`.
abbrev pub IsOwnStep : {l m : Listener} → Lifecycle.Step l m → Type 0
IsOwnStep (Lifecycle.start i e) = ⊥
IsOwnStep (Lifecycle.stop i e) = ⊥
IsOwnStep (Lifecycle.bound t c e) = Unit
IsOwnStep (Lifecycle.bind_failed t c e) = Unit
IsOwnStep (Lifecycle.round t r c e) = Unit
IsOwnStep (Lifecycle.round_failed t c e) = Unit
IsOwnStep (Lifecycle.leave t r c e) = Unit
IsOwnStep (Lifecycle.joined t c e) = Unit

-- A SIGINT; a wake-up of the wait without one; a statement of `main`; a step of the listener.
pub data Step (p : Process) : Process → Type 0 where
  interrupt : {q : Process} → p.listener.caller ≢ dead → q ≡ signal_handler p → Step p q
  spurious :
      {q : Process}
      → p.phase ≡ waiting
      → p.listener.caller ≢ dead
      → q ≡ record p { phase = woken }
      → Step p q
  start :
      {q : Process}
      → p.phase ≡ ready
      → p.listener.caller ≡ idle
      → q ≡ record { phase = started; listener = (start_listener p.listener).0 }
      → Step p q
  wait :
      {q : Process}
      → p.phase ≡ started
      → p.listener.caller ≡ idle
      → q ≡ record p { phase = waiting }
      → Step p q
  stop :
      {q : Process}
      → p.phase ≡ woken
      → p.listener.caller ≡ idle
      → q ≡ record { phase = stopping; listener = stop_listener p.listener }
      → Step p q
  finish :
      {q : Process}
      → p.phase ≡ stopping
      → p.listener.caller ≡ idle
      → q ≡ record p { phase = ended }
      → Step p q
  listen :
      {q : Process} {m : Listener} (s : Lifecycle.Step p.listener m)
      → IsOwnStep s
      → q ≡ record p { listener = m }
      → Step p q

pub data Reach (p : Process) : Process → Type 0 where
  here : Reach p p
  next : {q r : Process} → Reach p q → Step q r → Reach p r

-- The step is neither a SIGINT nor a wake-up without one.
abbrev pub IsQuiet : {p q : Process} → Step p q → Type 0
IsQuiet (interrupt a e) = ⊥
IsQuiet (spurious w a e) = ⊥
IsQuiet (start f i e) = Unit
IsQuiet (wait f i e) = Unit
IsQuiet (stop f i e) = Unit
IsQuiet (finish f i e) = Unit
IsQuiet (listen s o e) = Unit

-- Quiet steps only.
pub data QuietReach (p : Process) : Process → Type 0 where
  still : QuietReach p p
  then_quiet : {q r : Process} → QuietReach p q → (s : Step q r) → IsQuiet s → QuietReach p r

-- The step is one of the listener.
abbrev pub IsListen : {p q : Process} → Step p q → Type 0
IsListen (interrupt a e) = ⊥
IsListen (spurious w a e) = ⊥
IsListen (start f i e) = ⊥
IsListen (wait f i e) = ⊥
IsListen (stop f i e) = ⊥
IsListen (finish f i e) = ⊥
IsListen (listen s o e) = Unit

-- `main` has returned, or the process has ended without that.
abbrev pub IsOver : Process → Type 0
IsOver p = (p.phase ≡ ended) ⊎ (p.listener.caller ≡ dead)

-- A step that changes the state, and does not end the process.
abbrev pub GoesOn : Process → Type 0
GoesOn p = (q : Process) × Step p q × (q ≢ p) × (q.listener.caller ≢ dead)

-- Within `k` steps that change the state, whichever happen, `main` has returned, or a step has
-- ended the process; until then there is such a step that does not end it.
abbrev pub Finishes : ℕ → Process → Type 0
Finishes zero p = IsOver p
Finishes (suc k) p = IsOver p ⊎ (GoesOn p × ((q : Process) → Step p q → (q ≡ p) ⊎ Finishes k q))
