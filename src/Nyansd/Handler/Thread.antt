-- ===== src/Nyansd/Handler/Thread.antt =====
-- src/nyansd.cpp: the whole of `clientHandler`, from `bind` to the end of its loop.
pub mod Answered
pub mod Inside
use nyan_sd.Base.{
  ℕ, Bool, true, false, Option, none, some, List, [], ◌∷◌, ◌++◌, if◌then◌else◌, Bytes,
}
use nyan_sd.ByteBauble.{BbEndianness}
use nyan_sd.Nyansd.{Service}
use nyan_sd.Nyansd.LocalIp.{Address, SocketAddress}
use nyan_sd.Nyansd.Handler.{Handled, client_handler}

-- What a round of `while (running)` meets: `poll` reports nothing in 250 ms, or throws;
-- `receiveFrom` throws, or it fills the buffer: with the sender, the registry while the datagram
-- is handled, what the variable `ipv4` holds before it is set, the buffer as it then is and the
-- number of bytes received; of a datagram that arrives these are its `received_bytes`.
pub data Event : Type 0 where
  silent : Event
  poll_failed : Event
  failed : Event
  datagram : SocketAddress → List Service → ℕ → Bytes → ℕ → Event

-- A message that `sendTo` has sent.
pub record Reply : Type 0 where
  pub to_address : SocketAddress
  pub message : Bytes

-- How the thread ends: it returns, an exception leaves it and std::terminate is called, or it has
-- read outside its buffer.
pub data ThreadEnd : Type 0 where
  returned terminated crashed : ThreadEnd

-- The messages sent up to the first that `sendTo` throws for, and whether there is none.
pub send_all : (SocketAddress → Bytes → Bool) → SocketAddress → List Bytes → List Reply × Bool
send_all sends to [] = ([], true)
send_all sends to (m ∷ ms) =
    let (sent, all_sent) = send_all sends to ms in
    if sends to m then (record { to_address = to; message = m } ∷ sent, all_sent) else ([], false)

-- The messages are sent as they are made, so that a failed one comes before what happens later.
after_send : ThreadEnd → List Reply × Bool → List Reply × Option ThreadEnd
after_send later (sent, true) = (sent, some later)
after_send later (sent, false) = (sent, some terminated)

after_sends : List Reply × Bool → List Reply × Option ThreadEnd
after_sends (sent, true) = (sent, none)
after_sends (sent, false) = (sent, some terminated)

deliver : (SocketAddress → Bytes → Bool) → SocketAddress → Handled → List Reply × Option ThreadEnd
unfolding after_send after_sends
deliver sends to (Handled.done ms) = after_sends (send_all sends to ms)
deliver sends to (Handled.terminated ms) = after_send terminated (send_all sends to ms)
deliver sends to (Handled.crashed ms) = after_send crashed (send_all sends to ms)

-- The body of the loop: what it sends, and how the thread ends, if it does.
listening_round :
    BbEndianness
    → List (List Address)
    → (SocketAddress → Bytes → Bool)
    → Event
    → List Reply × Option ThreadEnd
unfolding deliver
listening_round machine interfaces sends silent = ([], none)
listening_round machine interfaces sends poll_failed = ([], some terminated)
listening_round machine interfaces sends failed = ([], none)
listening_round machine interfaces sends (datagram sender services uninit buffer n) =
    deliver sends sender (client_handler machine interfaces sender uninit services buffer n)

after_round : List Reply × Option ThreadEnd → List Reply × ThreadEnd → List Reply × ThreadEnd
after_round (sent, some end) later = (sent, end)
after_round (sent, none) (sent', end) = (sent ++ sent', end)

-- `while (running)`, for the rounds until `running` is found to be false.
pub listening_loop :
    BbEndianness
    → List (List Address)
    → (SocketAddress → Bytes → Bool)
    → List Event
    → List Reply × ThreadEnd
unfolding after_round
listening_loop machine interfaces sends [] = ([], returned)
listening_loop machine interfaces sends (e ∷ es) =
    after_round (listening_round machine interfaces sends e)
      (listening_loop machine interfaces sends es)

-- The thread. An exception of `bind` leaves it.
pub listening_thread :
    BbEndianness
    → List (List Address)
    → (SocketAddress → Bytes → Bool)
    → Bool
    → List Event
    → List Reply × ThreadEnd
listening_thread machine interfaces sends true events =
    listening_loop machine interfaces sends events
listening_thread machine interfaces sends false events = ([], terminated)
