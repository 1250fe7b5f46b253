-- ===== src/Nyansd/Lifecycle.antt =====
-- src/nyansd.cpp: `startListener`, `stopListener` and the thread of `clientHandler`, interleaved.
-- What the thread does with datagrams is in `Handler`; here it is one round of its loop.
pub mod Stop
use nyan_sd.Base.{
  ℕ, ◌≡◌, ◌≢◌, refl, ◌⊎◌, inl, inr, Bool, true, false, arith, if◌then◌else◌, Bool-cases,
}

-- The thread object `handler`: none, or one that has not yet set `running`, is in its loop, or
-- has left the function. The last three are joinable.
pub data Thread : Type 0 where
  absent created looping finished : Thread

-- The thread that calls the interface: between calls, inside `handler.join()`, or gone with the
-- process by std::terminate or an exception.
pub data Caller : Type 0 where
  idle joining dead : Caller

pub record Listener : Type 0 where
  pub running : Bool
  pub thread : Thread
  pub caller : Caller

abbrev pub initial : Listener
initial = record { running = false; thread = absent; caller = idle }

-- Assigning a new thread to a joinable object terminates the process.
create : Thread → Listener → Listener
create absent l = record l { thread = created }
create created l = record l { caller = dead }
create looping l = record l { caller = dead }
create finished l = record l { caller = dead }

unfoldable pub start_listener : Listener → Listener × Bool
unfolding create
start_listener l = if l.running then (l, false) else (create l.thread l, true)

-- `handler.join()` of an object with no thread throws.
enter_join : Thread → Listener → Listener
enter_join absent l = record l { caller = dead }
enter_join created l = record l { caller = joining }
enter_join looping l = record l { caller = joining }
enter_join finished l = record l { caller = joining }

-- `stopListener` up to the wait.
unfoldable pub stop_listener : Listener → Listener
unfolding enter_join
stop_listener l = enter_join l.thread (record l { running = false })

-- The steps. `bound` and `bind_failed` are the two outcomes of `udpsocket.bind`. A round of the
-- thread is over, or has ended the process: by an exception that leaves the thread, or by a read
-- outside its buffer; that round may have begun before `running` was cleared.
pub data Step (l : Listener) : Listener → Type 0 where
  start : {m : Listener} → l.caller ≡ idle → m ≡ (start_listener l).0 → Step l m
  stop : {m : Listener} → l.caller ≡ idle → m ≡ stop_listener l → Step l m
  bound :
      {m : Listener}
      → l.thread ≡ created
      → l.caller ≢ dead
      → m ≡ record l { running = true; thread = looping }
      → Step l m
  bind_failed :
      {m : Listener}
      → l.thread ≡ created
      → l.caller ≢ dead
      → m ≡ record l { caller = dead }
      → Step l m
  round :
      {m : Listener} → l.thread ≡ looping → l.running ≡ true → l.caller ≢ dead → m ≡ l → Step l m
  round_failed :
      {m : Listener}
      → l.thread ≡ looping
      → l.caller ≢ dead
      → m ≡ record l { caller = dead }
      → Step l m
  leave :
      {m : Listener}
      → l.thread ≡ looping
      → l.running ≡ false
      → l.caller ≢ dead
      → m ≡ record l { thread = finished }
      → Step l m
  joined :
      {m : Listener}
      → l.thread ≡ finished
      → l.caller ≡ joining
      → m ≡ record l { thread = absent; caller = idle }
      → Step l m

pub data Reach (l : Listener) : Listener → Type 0 where
  here : Reach l l
  next : {m n : Listener} → Reach l m → Step m n → Reach l n

-- Only a thread in its loop keeps `running` set, and it has it set until a caller waits; a caller
-- waits only for a thread.
pub record IsValid (l : Listener) : Type 0 where
  pub running_loops : l.running ≡ true → l.thread ≡ looping
  pub loops_running : l.thread ≡ looping → l.caller ≡ idle → l.running ≡ true
  pub ends_awaited : l.thread ≡ finished → l.caller ≢ idle
  pub waits_for_one : l.caller ≡ joining → l.thread ≢ absent

pub Step-IsValid : {l m : Listener} → IsValid l → Step l m → IsValid m
unfolding start_listener stop_listener
Step-IsValid v (start i e) = ground arith
Step-IsValid v (stop i e) = ground arith
Step-IsValid v (bound t c e) = ground arith
Step-IsValid v (bind_failed t c e) = ground arith
Step-IsValid v (round t r c e) = ground arith
Step-IsValid v (round_failed t c e) = ground arith
Step-IsValid v (leave t r c e) = ground arith
Step-IsValid v (joined t c e) = ground arith
