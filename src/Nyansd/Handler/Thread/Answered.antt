-- ===== src/Nyansd/Handler/Thread/Answered.antt =====
-- What the thread of `clientHandler` sends while clients on its network ask.
use nyan_sd.Base.{
  ℕ, ◌<◌, ◌≤◌, ◌^◌, ◌≡◌, refl, sym, ap, ◌∙◌, Bool, true, false, none, some, List, [], ◌∷◌, ◌++◌,
  length, All, map, append_assoc, append-nil, Bytes, IsByte,
}
use nyan_sd.ByteBauble.{BbEndianness}
use nyan_sd.Nyansd.{Service, Query}
use nyan_sd.Nyansd.Ipv4.{ipv4_uint_to_string}
use nyan_sd.Nyansd.LocalIp.{
  af_inet, Address, SocketAddress, LocalIp, before_last, found, remote_to_local_ip,
}
use nyan_sd.Nyansd.LocalIp.Found.{FirstOnNetwork}
use nyan_sd.Nyansd.Wire.{Scan, ok, refused, fault}
use nyan_sd.Nyansd.SendQuery.{query_message}
use nyan_sd.Nyansd.Response.Message.{message}
use nyan_sd.Nyansd.Handler.{
  done, received_bytes, parse_broadcast, after_broadcast, handle_datagram, client_handler,
}
use nyan_sd.Nyansd.Handler.Announced.{FitsServer, announced}
use nyan_sd.Nyansd.Handler.Queries.{FitsBroadcast}
use nyan_sd.Nyansd.Handler.Arbitrary.{IsBroadcast, parse_broadcast-IsBroadcast}
use nyan_sd.Nyansd.Handler.Reads.{Starts, parse_broadcast-Starts, count_byte}
use nyan_sd.Nyansd.Handler.Local.{client_handler-FirstOnNetwork}
use nyan_sd.Nyansd.Handler.Thread.{
  Event, silent, poll_failed, failed, datagram, Reply, returned, terminated, send_all, after_sends,
  deliver, listening_round, after_round, listening_loop, listening_thread,
}

-- A client that asks: its byte order, its address as `net`, a dot and `host`, what it asks for,
-- and what the server has for it: the address that the client reaches it by, the registry at the
-- time, what the variable `ipv4` holds, and what the buffer holds behind the message.
pub record Question : Type 0 where
  pub client : BbEndianness
  pub net : Bytes
  pub host : Bytes
  pub queries : List Query
  pub address : ℕ
  pub services : List Service
  pub uninit : ℕ
  pub junk : Bytes

-- The address of a client: `net`, a dot, and `host`, which also holds the port.
abbrev pub client_at : Bytes → Bytes → SocketAddress
client_at net host = record { family = af_inet; text = net ++ (b'.' ∷ host) }

abbrev pub asker : Question → SocketAddress
asker q = client_at q.net q.host

-- A round of the loop in which a client asks, or one in which none does.
pub data Round : Type 0 where
  asks : Question → Round
  other : Event → Round

abbrev pub event_of : Round → Event
event_of (asks q) =
    let received = received_bytes (query_message q.client q.queries) in
    datagram (asker q) q.services q.uninit (received ++ q.junk) (length received)
event_of (other e) = e

-- The client is on the network of the server's interface with that address; queries and services
-- fit one message.
pub record Reaches (server : BbEndianness) (interfaces : List (List Address)) (q : Question)
    : Type 0 where
  pub address_fits : q.address < 256 ^ 4
  pub host_has_no_dot : before_last b'.' q.host ≡ none
  pub on_network :
      FirstOnNetwork (q.net ++ b'.' ∷ []) (ipv4_uint_to_string server q.address) interfaces
  pub services_fit : FitsServer (found q.address []) q.services
  pub queries_fit : FitsBroadcast q.queries

-- Nothing is received, or a datagram that is no broadcast message.
abbrev pub IsNoise : Event → Type 0
IsNoise silent = Unit
IsNoise poll_failed = ⊥
IsNoise failed = Unit
IsNoise (datagram sender services uninit buffer n) =
    All IsByte buffer × (10 ≤ length buffer) × ((count : ℕ) → ¬ IsBroadcast buffer n count)

abbrev pub IsOrdinary : BbEndianness → List (List Address) → Round → Type 0
IsOrdinary server interfaces (asks q) = Reaches server interfaces q
IsOrdinary server interfaces (other e) = IsNoise e

-- The responses to a client, one for each query.
abbrev pub responses_to : Question → List Bytes
responses_to q = map (λ p. message (announced (found q.address []) q.services p)) q.queries

abbrev pub addressed : SocketAddress → List Bytes → List Reply
addressed to ms = map (λ m. record { to_address = to; message = m }) ms

unfoldable pub replies_in : List Round → List Reply
replies_in [] = []
replies_in (asks q ∷ rs) = addressed (asker q) (responses_to q) ++ replies_in rs
replies_in (other e ∷ rs) = replies_in rs

-- `sendTo` throws for none of these.
abbrev pub AllSent : (SocketAddress → Bytes → Bool) → List Reply → Type 0
AllSent sends rs = All (λ r. sends r.to_address r.message ≡ true) rs

pub send_all-addressed :
    (sends : SocketAddress → Bytes → Bool) (to : SocketAddress) (ms : List Bytes)
    → AllSent sends (addressed to ms)
    → send_all sends to ms ≡ (addressed to ms, true)
unfolding send_all
send_all-addressed sends to [] h = refl
send_all-addressed sends to (m ∷ ms) (h, hs) = rw (h, send_all-addressed sends to ms hs) refl

All-split {ℓ κ} :
    {A : Type ℓ} (P : A → Type κ) (xs ys : List A) → All P (xs ++ ys) → All P xs × All P ys
All-split P [] ys h = (tt, h)
All-split P (x ∷ xs) ys (h, hs) = let (a, b) = All-split P xs ys hs in ((h, a), b)

-- A datagram that is no broadcast message is not answered, and read within its buffer.
handle_datagram-noise :
    (machine : BbEndianness) (local : LocalIp) (svs : List Service) (buffer : Bytes) (n : ℕ)
    → All IsByte buffer
    → 10 ≤ length buffer
    → ((count : ℕ) → ¬ IsBroadcast buffer n count)
    → handle_datagram machine local svs buffer n ≡ done []
unfolding handle_datagram after_broadcast
handle_datagram-noise machine local svs buffer n bytes long h =
    go (parse_broadcast machine buffer n) (parse_broadcast-Starts machine buffer n long)
      (λ c i e. h c (parse_broadcast-IsBroadcast machine buffer n c i bytes e))
  where
    go :
        (r : Scan (ℕ × ℕ))
        → Starts (count_byte buffer) r
        → ((c i : ℕ) → ¬ (r ≡ ok (c, i)))
        → after_broadcast machine local svs buffer r ≡ done []
    go (ok (c, i)) s k = absurd (k c i refl)
    go refused s k = refl
    go fault s k = absurd s

-- Nothing is sent behind the first message that cannot be.
send_all-stops :
    (sends : SocketAddress → Bytes → Bool) (to : SocketAddress) (ms : List Bytes) (m : Bytes)
    (behind : List Bytes)
    → AllSent sends (addressed to ms)
    → sends to m ≡ false
    → send_all sends to (ms ++ m ∷ behind) ≡ (addressed to ms, false)
unfolding send_all
send_all-stops sends to [] m behind h fails = rw fails refl
send_all-stops sends to (m' ∷ ms) m behind (h, hs) fails =
    rw (h, send_all-stops sends to ms m behind hs fails) refl

module _ (server : BbEndianness) (interfaces : List (List Address))
    (sends : SocketAddress → Bytes → Bool) where
  listening_round-noise :
      (e : Event) → IsNoise e → listening_round server interfaces sends e ≡ ([], none)
  unfolding listening_round client_handler
  listening_round-noise silent h = refl
  listening_round-noise poll_failed h = absurd h
  listening_round-noise failed h = refl
  listening_round-noise (datagram sender svs uninit buffer n) (bytes, long, h) =
      rw
        (handle_datagram-noise server (remote_to_local_ip server interfaces sender uninit []) svs
          buffer n bytes long h)
        (unfold deliver after_sends send_all in refl)

  listening_round-asks :
      (q : Question)
      → Reaches server interfaces q
      → AllSent sends (addressed (asker q) (responses_to q))
      → listening_round server interfaces sends (event_of (asks q))
        ≡ (addressed (asker q) (responses_to q), none)
  unfolding listening_round deliver after_sends
  listening_round-asks q h s =
      rw
        (
          client_handler-FirstOnNetwork q.client server q.net q.host q.address q.uninit interfaces
              q.services q.queries q.junk h.address_fits h.host_has_no_dot h.on_network
              h.services_fit h.queries_fit,
          send_all-addressed sends (asker q) (responses_to q) s,
        )
        refl

  listening_round-unsent :
      (q : Question) (front behind : List Bytes) (m : Bytes)
      → Reaches server interfaces q
      → responses_to q ≡ front ++ m ∷ behind
      → AllSent sends (addressed (asker q) front)
      → sends (asker q) m ≡ false
      → listening_round server interfaces sends (event_of (asks q))
        ≡ (addressed (asker q) front, some terminated)
  unfolding listening_round deliver after_sends
  listening_round-unsent q front behind m h e s fails =
      rw
        (
          client_handler-FirstOnNetwork q.client server q.net q.host q.address q.uninit interfaces
              q.services q.queries q.junk h.address_fits h.host_has_no_dot h.on_network
              h.services_fit h.queries_fit,
          e,
          send_all-stops sends (asker q) front m behind s fails,
        )
        refl

  -- The rounds before have no effect on the later ones.
  pub listening_loop-ordinary :
      (rs : List Round) (later : List Event)
      → All (IsOrdinary server interfaces) rs
      → AllSent sends (replies_in rs)
      → let (sent, end) = listening_loop server interfaces sends later in
        listening_loop server interfaces sends (map event_of rs ++ later)
        ≡ (replies_in rs ++ sent, end)
  unfolding listening_loop after_round replies_in
  listening_loop-ordinary [] later hs s = refl
  listening_loop-ordinary (asks q ∷ rs) later (h, hs) s =
      let (now, then_) =
        All-split (λ r. sends r.to_address r.message ≡ true) (addressed (asker q) (responses_to q))
          (replies_in rs) s in
      rw (listening_round-asks q h now, listening_loop-ordinary rs later hs then_)
        (simp append_assoc)
  listening_loop-ordinary (other e ∷ rs) later (h, hs) s =
      rw (listening_round-noise e h, listening_loop-ordinary rs later hs s) refl

  -- Whatever the thread meets between them, rounds in which nothing is received or a datagram that
  -- is no broadcast message: it answers each client on its network in order, with one response for
  -- each of its queries, sent to that client, which announces the services registered by then that
  -- match, all or those whose name is exactly the filter, under the address of the interface on the
  -- client's network where they have none. It ends by returning, once `running` is false. No
  -- `sendTo` throws, and queries and services fit.
  pub listening_thread-answers :
      (rs : List Round)
      → All (IsOrdinary server interfaces) rs
      → AllSent sends (replies_in rs)
      → listening_thread server interfaces sends true (map event_of rs) ≡ (replies_in rs, returned)
  unfolding listening_thread
  listening_thread-answers rs hs s =
      ap (listening_loop server interfaces sends) (sym (append-nil (map event_of rs)))
      ∙ listening_loop-ordinary rs [] hs s
      ∙ unfold listening_loop in ap (λ xs. (xs, returned)) (append-nil (replies_in rs))

  -- An exception of `sendTo` for one response ends the thread by std::terminate: the responses
  -- before it have been sent, and nobody is answered any more.
  pub listening_thread-unsent :
      (rs : List Round) (q : Question) (front behind : List Bytes) (m : Bytes) (later : List Event)
      → All (IsOrdinary server interfaces) rs
      → AllSent sends (replies_in rs)
      → Reaches server interfaces q
      → responses_to q ≡ front ++ m ∷ behind
      → AllSent sends (addressed (asker q) front)
      → sends (asker q) m ≡ false
      → listening_thread server interfaces sends true (map event_of rs ++ event_of (asks q) ∷ later)
        ≡ (replies_in rs ++ addressed (asker q) front, terminated)
  unfolding listening_thread listening_loop after_round
  listening_thread-unsent rs q front behind m later hs s h e s' fails =
      listening_loop-ordinary rs (event_of (asks q) ∷ later) hs s
      ∙ rw (listening_round-unsent q front behind m h e s' fails) refl
