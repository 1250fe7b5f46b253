-- ===== src/Nyansd/Handler/Thread/Inside.antt =====
-- When the thread of `clientHandler` reads outside its buffer.
use nyan_sd.Base.{
  ℕ, ◌<◌, ◌≤◌, ◌-◌, ◌^◌, ◌≡◌, ◌≢◌, refl, ◌∙◌, Bool, true, false, Option, none, some, List, [], ◌∷◌,
  ◌++◌, arith, length, All, map, Bytes, IsByte,
}
use nyan_sd.ByteBauble.{BbEndianness}
use nyan_sd.Nyansd.{Service, Query}
use nyan_sd.Nyansd.Ipv4.{ipv4_uint_to_string}
use nyan_sd.Nyansd.LocalIp.{Address, SocketAddress, before_last, found, remote_to_local_ip}
use nyan_sd.Nyansd.LocalIp.Found.{FirstOnNetwork, remote_to_local_ip-FirstOnNetwork}
use nyan_sd.Nyansd.Response.Message.{message}
use nyan_sd.Nyansd.Handler.{Handled, receive_size, client_handler}
use nyan_sd.Nyansd.Handler.Announced.{FitsServer, announced}
use nyan_sd.Nyansd.Handler.Queries.{FitsQuery}
use nyan_sd.Nyansd.Handler.Reads.{
  count_byte, StaysInside, handle_datagram-StaysInside, BroadcastThen, handle_datagram-overread,
}
use nyan_sd.Nyansd.Handler.Thread.{
  Event, silent, poll_failed, failed, datagram, Reply, ThreadEnd, terminated, crashed, send_all,
  after_send, after_sends, deliver, listening_round, after_round, listening_loop, listening_thread,
}
use nyan_sd.Nyansd.Handler.Thread.Answered.{
  client_at, Round, event_of, addressed, replies_in, AllSent, IsOrdinary, send_all-addressed,
  listening_loop-ordinary,
}

-- A datagram of any bytes in the 2048 bytes of the buffer, with a count of at most 7 queries.
abbrev pub HasFewQueries : Event → Type 0
HasFewQueries silent = Unit
HasFewQueries poll_failed = Unit
HasFewQueries failed = Unit
HasFewQueries (datagram sender services uninit buffer n) =
    All IsByte buffer × (length buffer ≡ receive_size) × (count_byte buffer ≤ 7)

-- The responses to some queries, under an address of the server.
abbrev pub answers : ℕ → List Service → List Query → List Bytes
answers v svs qs = map (λ q. message (announced (found v []) svs q)) qs

module _ (machine : BbEndianness) (interfaces : List (List Address))
    (sends : SocketAddress → Bytes → Bool) where
  deliver-inside :
      (to : SocketAddress) (h : Handled) → StaysInside h → (deliver sends to h).1 ≢ some crashed
  unfolding deliver
  deliver-inside to (Handled.done ms) s e = go (send_all sends to ms) e
    where
      go : (r : List Reply × Bool) → (after_sends r).1 ≢ some crashed
      go (rs, true) e = unfold after_sends in ground (arith, e)
      go (rs, false) e = unfold after_sends in ground (arith, e)
  deliver-inside to (Handled.terminated ms) s e = go (send_all sends to ms) e
    where
      go : (r : List Reply × Bool) → (after_send terminated r).1 ≢ some crashed
      go (rs, true) e = unfold after_send in ground (arith, e)
      go (rs, false) e = unfold after_send in ground (arith, e)
  deliver-inside to (Handled.crashed ms) s e = s

  listening_round-inside :
      (e : Event) → HasFewQueries e → (listening_round machine interfaces sends e).1 ≢ some crashed
  unfolding listening_round client_handler
  listening_round-inside silent h e = ground (arith, e)
  listening_round-inside poll_failed h e = ground (arith, e)
  listening_round-inside failed h e = ground (arith, e)
  listening_round-inside (datagram sender svs uninit buffer n) (bytes, size, few) e =
      deliver-inside sender _
        (handle_datagram-StaysInside machine
          (remote_to_local_ip machine interfaces sender uninit []) svs buffer n bytes size few)
        e

  after_round-inside :
      (r : List Reply × Option ThreadEnd) (later : List Reply × ThreadEnd)
      → r.1 ≢ some crashed
      → later.1 ≢ crashed
      → (after_round r later).1 ≢ crashed
  unfolding after_round
  after_round-inside (rs, some end) later h k e = ground (arith, e)
  after_round-inside (rs, none) (rs', end) h k e = k e

  listening_loop-inside :
      (es : List Event)
      → All HasFewQueries es
      → (listening_loop machine interfaces sends es).1 ≢ crashed
  unfolding listening_loop
  listening_loop-inside [] h e = ground (arith, e)
  listening_loop-inside (e ∷ es) (h, hs) c =
      after_round-inside (listening_round machine interfaces sends e)
        (listening_loop machine interfaces sends es) (listening_round-inside e h)
        (listening_loop-inside es hs) c

  -- Whatever datagrams arrive, of any bytes and from anyone, and whichever calls of the socket
  -- throw: while none has a count of more than 7 queries in its tenth byte, the thread reads
  -- nothing outside the 2048 bytes of its buffer.
  pub listening_thread-inside :
      (binds : Bool) (es : List Event)
      → All HasFewQueries es
      → (listening_thread machine interfaces sends binds es).1 ≢ crashed
  unfolding listening_thread
  listening_thread-inside true es h e = listening_loop-inside es h e
  listening_thread-inside false es h e = ground (arith, e)

  round-overread :
      (net host : Bytes) (v uninit : ℕ) (svs : List Service) (qs : List Query) (buffer : Bytes)
      (n count qlen : ℕ) (rest : Bytes)
      → v < 256 ^ 4
      → before_last b'.' host ≡ none
      → FirstOnNetwork (net ++ b'.' ∷ []) (ipv4_uint_to_string machine v) interfaces
      → FitsServer (found v []) svs
      → All FitsQuery qs
      → BroadcastThen buffer n count qs qlen rest
      → length qs < count
      → 10 ≤ n
      → n - 8 < 256 ^ 2
      → length rest < qlen
      → AllSent sends (addressed (client_at net host) (answers v svs qs))
      → listening_round machine interfaces sends (datagram (client_at net host) svs uninit buffer n)
        ≡ (addressed (client_at net host) (answers v svs qs), some crashed)
  unfolding listening_round client_handler deliver after_send
  round-overread net host v uninit svs qs buffer n count qlen rest fits no_dot on f fs form more
        long field few s =
      rw
        (
          remote_to_local_ip-FirstOnNetwork machine net host v interfaces uninit [] fits no_dot on,
          handle_datagram-overread machine (found v []) svs qs buffer n count qlen rest f fs form
              more long field few,
          send_all-addressed sends (client_at net host) (answers v svs qs) s,
        )
        refl

  -- One datagram can end the process. Behind any ordinary rounds, when a broadcast message arrives
  -- from an address on the network of one of the server's interfaces, with queries of which one is
  -- said to be longer than the rest of the 2048 bytes of the buffer, the thread sends its responses
  -- to the queries before that one, and reads outside the buffer. No `sendTo` throws, and the
  -- services fit.
  pub listening_thread-overread :
      (rs : List Round) (net host : Bytes) (v uninit : ℕ) (svs : List Service) (qs : List Query)
      (buffer : Bytes) (n count qlen : ℕ) (rest : Bytes) (later : List Event)
      → All (IsOrdinary machine interfaces) rs
      → v < 256 ^ 4
      → before_last b'.' host ≡ none
      → FirstOnNetwork (net ++ b'.' ∷ []) (ipv4_uint_to_string machine v) interfaces
      → FitsServer (found v []) svs
      → All FitsQuery qs
      → BroadcastThen buffer n count qs qlen rest
      → length buffer ≡ receive_size
      → n ≤ receive_size
      → length qs < count
      → 10 ≤ n
      → length rest < qlen
      → AllSent sends (replies_in rs)
      → AllSent sends (addressed (client_at net host) (answers v svs qs))
      → listening_thread machine interfaces sends true
          (map event_of rs ++ datagram (client_at net host) svs uninit buffer n ∷ later)
        ≡ (replies_in rs ++ addressed (client_at net host) (answers v svs qs), crashed)
  unfolding listening_thread listening_loop after_round
  listening_thread-overread rs net host v uninit svs qs buffer n count qlen rest later hs fits
        no_dot on f fs form size field more long few s s' =
      listening_loop-ordinary machine interfaces sends rs
        (datagram (client_at net host) svs uninit buffer n ∷ later) hs s
      ∙ rw
          (round-overread net host v uninit svs qs buffer n count qlen rest fits no_dot on f fs form
            more long (omega (arith, field)) few s')
          refl
