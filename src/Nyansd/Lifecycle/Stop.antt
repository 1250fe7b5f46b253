-- ===== src/Nyansd/Lifecycle/Stop.antt =====
-- When `stopListener` returns, and when it cannot.
use nyan_sd.Base.{◌≡◌, ◌≢◌, ◌↔◌, refl, ◌⊎◌, inl, inr, true, false, arith}
use nyan_sd.Nyansd.Lifecycle.{
  Thread, absent, created, looping, finished, idle, joining, dead, Listener, initial,
  start_listener, stop_listener, Step, start, stop, bound, bind_failed, round, round_failed, leave,
  joined, Reach, here, next, IsValid, Step-IsValid,
}

-- In every state that the program can reach, `running` is set only while the thread is in its
-- loop; it is set then unless the caller waits or is gone; the thread has left its loop only
-- where the caller is not between calls; and a caller waits only for a thread that there is.
pub Reach-IsValid : {l : Listener} → Reach initial l → IsValid l
Reach-IsValid here = ground arith
Reach-IsValid (next r s) = Step-IsValid (Reach-IsValid r) s

-- In a reachable state between calls, `startListener` ends the process exactly when there is a
-- thread that has not set `running` yet.
pub start_listener-dead :
    {l : Listener}
    → Reach initial l
    → l.caller ≡ idle
    → ((start_listener l).0.caller ≡ dead) ↔ (l.thread ≡ created)
unfolding start_listener
start_listener-dead {l} r i =
    let v : IsValid l = Reach-IsValid r in (λ d. ground arith, λ t. ground arith)

-- What is left of a call of `stopListener` that found the thread in its loop: the thread is still
-- in it, or has left; `running` is clear.
abbrev pub Stopping : Listener → Thread → Type 0
Stopping l t = (l.running ≡ false) × (l.thread ≡ t) × (l.caller ≡ joining)

pub stop_first :
    {l m : Listener} → Stopping l looping → Step l m → Stopping m finished ⊎ (m.caller ≡ dead)
stop_first h (start i e) = ground arith
stop_first h (stop i e) = ground arith
stop_first h (bound t c e) = ground arith
stop_first h (bind_failed t c e) = ground arith
stop_first h (round t r c e) = ground arith
stop_first h (round_failed t c e) = ground arith
stop_first h (leave t r c e) = ground arith
stop_first h (joined t c e) = ground arith

pub stop_second : {l m : Listener} → Stopping l finished → Step l m → m ≡ initial
stop_second h (start i e) = ground arith
stop_second h (stop i e) = ground arith
stop_second h (bound t c e) = ground arith
stop_second h (bind_failed t c e) = ground arith
stop_second h (round t r c e) = ground arith
stop_second h (round_failed t c e) = ground arith
stop_second h (leave t r c e) = ground arith
stop_second h (joined t c e) = ground arith

-- A call of `stopListener`, by a caller that was between calls, that finds the thread in its loop
-- can return in two steps. Whatever happens first: a round of the thread has ended the process, or
-- a second step is possible, and whichever it is, after it the call has returned and the listener
-- is as it was at the start of the program.
pub stop_returns :
    (l : Listener)
    → l.caller ≡ idle
    → l.thread ≡ looping
    → ((m : Listener) × Step (stop_listener l) m × Step m initial)
      × ((m : Listener)
          → Step (stop_listener l) m
          → (m.caller ≡ dead)
            ⊎ (((n : Listener) × Step m n) × ((n : Listener) → Step m n → n ≡ initial)))
unfolding stop_listener
stop_returns l i t = (
  (
    record { running = false; thread = finished; caller = joining },
    leave (ground arith) (ground arith) (ground arith) (ground arith),
    joined refl refl refl,
  ),
  λ m s. after m (stop_first (ground arith) s),
)
  where
    after :
        (m : Listener)
        → Stopping m finished ⊎ (m.caller ≡ dead)
        → (m.caller ≡ dead)
          ⊎ (((n : Listener) × Step m n) × ((n : Listener) → Step m n → n ≡ initial))
    after m (inr d) = inl d
    after m (inl h) =
        let (running, thread, caller) = h in
        inr (
          (record m { thread = absent; caller = idle }, joined thread caller refl),
          λ n s. stop_second h s,
        )

-- After a call of `stopListener` that came before the thread had set `running`.
abbrev Lost : Listener → Type 0
Lost l =
    ((l.caller ≡ joining) × ((l.thread ≡ created) ⊎ ((l.thread ≡ looping) × (l.running ≡ true))))
    ⊎ (l.caller ≡ dead)

Step-Lost : {l m : Listener} → Lost l → Step l m → Lost m
Step-Lost h (start i e) = ground arith
Step-Lost h (stop i e) = ground arith
Step-Lost h (bound t c e) = ground arith
Step-Lost h (bind_failed t c e) = ground arith
Step-Lost h (round t r c e) = ground arith
Step-Lost h (round_failed t c e) = ground arith
Step-Lost h (leave t r c e) = ground arith
Step-Lost h (joined t c e) = ground arith

Reach-Lost : {l m : Listener} → Lost l → Reach l m → Lost m
Reach-Lost h here = h
Reach-Lost h (next r s) = Step-Lost (Reach-Lost h r) s

-- A call of `stopListener`, by a caller that was between calls, before the thread that
-- `startListener` created has set `running` never returns: in every state after it the caller
-- still waits, or the process has ended.
pub early_stop_never_returns :
    (l : Listener) {m : Listener}
    → l.caller ≡ idle
    → l.thread ≡ created
    → Reach (stop_listener l) m
    → m.caller ≢ idle
unfolding stop_listener
early_stop_never_returns l {m} i t r = let h : Lost m = Reach-Lost (ground arith) r in ground arith
