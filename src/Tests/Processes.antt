-- ===== src/Tests/Processes.antt =====
-- The process around the listener: signals in time and too early.
use nyan_sd.Base.{◌≢◌, ◌≡◌, ◌⊎◌, refl, inr, true, false, arith}
use nyan_sd.Nyansd.Lifecycle as Lifecycle
use nyan_sd.Nyansd.Lifecycle.{created, looping, idle, dead, start_listener}
use nyan_sd.Process.{
  ready, started, waiting, ended, Process, launched, signal_handler, start, wait, listen, Reach,
  here, next, QuietReach, still, then_quiet, IsListen, Step, Finishes,
}
use nyan_sd.Process.Shutdown.{Reach_lem}
use nyan_sd.Process.Signal.{early_signal_lost, signal-Finishes}

-- `main` has started the listener; it waits; the thread is in its loop.
abbrev starting : Process
starting = record {
  phase = started;
  listener = record { running = false; thread = created; caller = idle };
}

abbrev in_wait : Process
in_wait = record starting { phase = waiting }

abbrev serving : Process
serving = record {
  phase = waiting;
  listener = record { running = true; thread = looping; caller = idle };
}

Reach-serving : Reach launched serving
unfolding start_listener
Reach-serving =
    next (next (next here (start refl refl refl)) (wait refl refl refl))
      (listen (Lifecycle.bound refl (ground arith) refl) tt refl)

process_example :
    Lifecycle.Reach Lifecycle.initial serving.listener
    × ((q : Process) (s : Step serving q)
        → serving.listener.caller ≢ dead
        → q.listener.caller ≡ dead
        → IsListen s)
    × (serving.listener.caller ≡ dead
        → (serving.listener.thread ≡ created) ⊎ (serving.listener.thread ≡ looping))
    × (serving.phase ≡ ended → serving.listener ≡ Lifecycle.initial)
process_example = Reach_lem Reach-serving

QuietReach-in_wait : QuietReach (signal_handler starting) in_wait
unfolding signal_handler
QuietReach-in_wait = then_quiet still (wait refl refl refl) tt

lost_signal_example :
    (in_wait.phase ≡ ready) ⊎ (in_wait.phase ≡ started) ⊎ (in_wait.phase ≡ waiting)
lost_signal_example = early_signal_lost starting (inr refl) QuietReach-in_wait

signal_example : Finishes 4 (signal_handler serving)
signal_example = signal-Finishes Reach-serving refl refl (ground arith)
