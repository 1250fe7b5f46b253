-- ===== src/Tests/Threads.antt =====
-- The listener started and stopped.
use nyan_sd.Base.{◌⊎◌, ◌≡◌, ◌≢◌, refl, true, false, arith}
use nyan_sd.Nyansd.Lifecycle.{
  created, looping, idle, joining, dead, Listener, initial, start_listener, stop_listener, Step,
  start, bound, Reach, here, next, IsValid,
}
use nyan_sd.Nyansd.Lifecycle.Stop.{Reach-IsValid, stop_returns, early_stop_never_returns}

-- The thread is there and has not set `running`; it is in its loop.
abbrev started : Listener
started = record { running = false; thread = created; caller = idle }

abbrev listening : Listener
listening = record { running = true; thread = looping; caller = idle }

abbrev early_stop : Listener
early_stop = record { running = true; thread = looping; caller = joining }

Reach-started : Reach initial started
unfolding start_listener
Reach-started = next here (start refl refl)

Reach-listening : Reach initial listening
Reach-listening = next Reach-started (bound refl (ground arith) refl)

listening_example : IsValid listening
listening_example = Reach-IsValid Reach-listening

stop_example :
    ((m : Listener) × Step (stop_listener listening) m × Step m initial)
    × ((m : Listener)
        → Step (stop_listener listening) m
        → (m.caller ≡ dead)
          ⊎ (((n : Listener) × Step m n) × ((n : Listener) → Step m n → n ≡ initial)))
stop_example = stop_returns listening refl refl

Reach-early_stop : Reach (stop_listener started) early_stop
unfolding stop_listener
Reach-early_stop = next here (bound refl (ground arith) refl)

early_stop_example : early_stop.caller ≢ idle
early_stop_example = early_stop_never_returns started refl refl Reach-early_stop
