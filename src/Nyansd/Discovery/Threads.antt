-- ===== src/Nyansd/Discovery/Threads.antt =====
-- A query answered by the threads of servers, each found at an address of its own.
pub mod Served
use nyan_sd.Base.{
  ℕ, ◌<◌, ◌^◌, ◌≢◌, true, List, [], ◌∷◌, ◌++◌, length, All, map, equal, if◌then◌else◌, Bytes,
}
use nyan_sd.ByteBauble.{BbEndianness}
use nyan_sd.Nyansd.{Service, Query}
use nyan_sd.Nyansd.Ipv4.{ipv4_uint_to_string}
use nyan_sd.Nyansd.LocalIp.{Address, SocketAddress, found}
use nyan_sd.Nyansd.LocalIp.Found.{FirstOnNetwork}
use nyan_sd.Nyansd.Handler.{received_bytes}
use nyan_sd.Nyansd.Handler.Thread.{datagram, Reply, ThreadEnd, listening_thread}
use nyan_sd.Nyansd.Handler.Thread.Answered.{
  client_at, Round, asks, other, event_of, asker, IsOrdinary,
}
use nyan_sd.Nyansd.Response.Message.{message}
use nyan_sd.Nyansd.Discovery.{Server, CanAnswer}

-- A server: its byte order, interfaces and services, its address on the client's network; what its
-- thread meets before and after the query, and what its memory holds before it is written.
pub record Peer : Type 0 where
  pub machine : BbEndianness
  pub interfaces : List (List Address)
  pub services : List Service
  pub address : ℕ
  pub before : List Round
  pub after : List Round
  pub uninit : ℕ
  pub junk : Bytes

-- The messages sent to an address.
sent_to : SocketAddress → List Reply → List Bytes
sent_to to [] = []
sent_to to (r ∷ rs) =
    let later = sent_to to rs in
    if equal to.text r.to_address.text then r.message ∷ later else later

-- What the server's thread sends when the payload arrives among the other datagrams, and every
-- message can be sent.
thread_run : SocketAddress → Bytes → Peer → List Reply × ThreadEnd
thread_run client payload p =
    let received = received_bytes payload in
    listening_thread p.machine p.interfaces (λ to m. true) true
      (map event_of p.before
        ++ datagram client p.services p.uninit (received ++ p.junk) (length received)
          ∷ map event_of p.after)

-- What the threads send to the client, server by server.
pub heard_from : SocketAddress → Bytes → List Peer → List Bytes
heard_from client payload [] = []
heard_from client payload (p ∷ ps) =
    sent_to client (thread_run client payload p).0 ++ heard_from client payload ps

abbrev pub server_of : Peer → Server
server_of p = record {
  machine = p.machine;
  local = found p.address [];
  services = p.services;
  leftover = p.junk;
}

-- Another client asks, or none.
abbrev pub IsElse : SocketAddress → Round → Type 0
IsElse client (asks q) = client.text ≢ (asker q).text
IsElse client (other e) = Unit

-- The server is on the client's network by an interface with its address, and its thread serves
-- this client once; the responses fit the client's buffers.
pub record IsServing (net host : Bytes) (qs : List Query) (p : Peer) : Type 0 where
  pub address_fits : p.address < 256 ^ 4
  pub on_network :
      FirstOnNetwork (net ++ b'.' ∷ []) (ipv4_uint_to_string p.machine p.address) p.interfaces
  pub can_answer : CanAnswer qs (server_of p)
  pub before_ordinary : All (IsOrdinary p.machine p.interfaces) p.before
  pub after_ordinary : All (IsOrdinary p.machine p.interfaces) p.after
  pub before_else : All (IsElse (client_at net host)) p.before
  pub after_else : All (IsElse (client_at net host)) p.after
