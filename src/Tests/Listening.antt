-- ===== src/Tests/Listening.antt =====
-- The thread of the listener among the datagrams it meets.
use nyan_sd.Base.{
  ◌≡◌, refl, Bool, true, List, [], ◌∷◌, ◌++◌, length, map, arith, text, equal, Bytes,
}
use nyan_sd.ByteBauble.{bb_le, bb_be, le_bytes}
use nyan_sd.Nyansd.LocalIp.{af_inet, SocketAddress, before_last}
use nyan_sd.Nyansd.LocalIp.Found.{IsOnNoInterface}
use nyan_sd.Nyansd.LocalIp.Origin.{IsWithout}
use nyan_sd.Nyansd.SendQuery.{query_message, broadcast_address, send_query}
use nyan_sd.Nyansd.Response.{returned}
use nyan_sd.Nyansd.Response.Message.{message}
use nyan_sd.Nyansd.Response.Section.{section}
use nyan_sd.Nyansd.Response.Datagram.{concat}
use nyan_sd.Nyansd.Handler.{done, received_bytes, client_handler, response_message}
use nyan_sd.Nyansd.Handler.Answers.{matching, localize}
use nyan_sd.Nyansd.Handler.Announced.{announced}
use nyan_sd.Nyansd.Handler.Thread.{Event, silent, failed, datagram, ThreadEnd, listening_thread}
use nyan_sd.Nyansd.Handler.Thread.Answered.{
  client_at, Question, Round, asks, other, event_of, asker, responses_to, addressed, replies_in,
  Reaches, listening_thread-answers, listening_thread-unsent,
}
use nyan_sd.Nyansd.Discovery.{arrivals, announcements, working}
use nyan_sd.Nyansd.Discovery.Threads.Served.{send_query-threads}
use nyan_sd.Nyansd.Discovery.Threads.{Peer, heard_from, IsServing}
use nyan_sd.Nyansd.Handler.Unresolved as Unresolved
use nyan_sd.Nyansd.Handler.Unresolved.{pieces, client_handler-elsewhere}
use nyan_sd.Tests.Data.{
  on_network, repeated-IsByte, FitsSection-hello, FitsSection-web, hello_there, web, local,
  services, for_all, for_web, queries, interfaces, FitsServer-services, FitsBroadcast-queries,
  CanAnswer-alpha, repeated,
}

-- The sender is 192.168.0.7, port 11310.
abbrev question : Question
question = record {
  client = bb_be;
  net = text "192.168.0";
  host = text "7:11310";
  queries = queries;
  address = 0x0500A8C0;
  services = services;
  uninit = 99;
  junk = text "junk";
}

Reaches-question : Reaches bb_le interfaces question
Reaches-question = record {
  address_fits = omega arith;
  host_has_no_dot = unfold before_last in refl;
  on_network = on_network;
  services_fit = FitsServer-services;
  queries_fit = FitsBroadcast-queries;
}

-- Ten bytes that are no broadcast message.
abbrev noise : Event
noise =
    datagram (record { family = af_inet; text = text "10.0.0.1:7" }) services 0 (repeated 10 0) 10

abbrev evening : List Round
evening = other silent ∷ other noise ∷ asks question ∷ other failed ∷ []

answers_example : listening_thread bb_le interfaces (λ to m. true) true (map event_of evening) ≡ (
  addressed (asker question) (message (hello_there ∷ web ∷ []) ∷ message (web ∷ []) ∷ []),
  ThreadEnd.returned,
)
unfolding announced matching localize equal replies_in
answers_example =
    listening_thread-answers bb_le interfaces (λ to m. true) evening
      (
        tt,
        (
          (repeated-IsByte 10 0 (omega arith), omega arith, λ c b. ground (arith, b.form)),
          (Reaches-question, (tt, tt)),
        ),
      )
      (refl, (refl, tt))

-- A client that has left the network.
abbrev gone : Question
gone = record question { host = text "9:11310" }

Reaches-gone : Reaches bb_le interfaces gone
Reaches-gone = record {
  address_fits = omega arith;
  host_has_no_dot = unfold before_last in refl;
  on_network = on_network;
  services_fit = FitsServer-services;
  queries_fit = FitsBroadcast-queries;
}

abbrev not_gone : SocketAddress → Bytes → Bool
not_gone to m = equal to.text (text "192.168.0.7:11310")

unsent_example :
    listening_thread bb_le interfaces not_gone true
      (event_of (asks question) ∷ event_of (asks gone) ∷ event_of (asks question) ∷ [])
    ≡ (addressed (asker question) (responses_to question), ThreadEnd.terminated)
unfolding replies_in
unsent_example =
    listening_thread-unsent bb_le interfaces not_gone (asks question ∷ []) gone []
      (message (announced local services for_web) ∷ []) (message (announced local services for_all))
      (event_of (asks question) ∷ []) (Reaches-question, tt) (unfold equal in (refl, (refl, tt)))
      Reaches-gone refl tt (unfold equal in refl)

-- The server whose thread meets another client, that asks from 192.168.0.9, before and noise after.
abbrev peer : Peer
peer = record {
  machine = bb_le;
  interfaces = interfaces;
  services = services;
  address = 0x0500A8C0;
  before = other silent ∷ asks gone ∷ [];
  after = other noise ∷ [];
  uninit = 99;
  junk = text "junk";
}

IsServing-peer : IsServing (text "192.168.0") (text "7:11310") queries peer
IsServing-peer = record {
  address_fits = omega arith;
  on_network = on_network;
  can_answer = record {
    services_fit = FitsServer-services;
    replies_fit = CanAnswer-alpha.replies_fit;
  };
  before_ordinary = (tt, (Reaches-gone, tt));
  after_ordinary =
      ((repeated-IsByte 10 0 (omega arith), omega arith, λ c b. ground (arith, b.form)), tt);
  before_else = (tt, ((λ e. ground (arith, e)), tt));
  after_else = (tt, tt);
}

threads_example :
    let payload = query_message bb_be queries in
    let back =
      arrivals
        (text "old")
        (heard_from (client_at (text "192.168.0") (text "7:11310")) payload (peer ∷ [])) in
    send_query bb_be 11310 queries (working (text "192.168.0.7") back ∷ []) [] ≡ (
      record {
        to_address = broadcast_address (text "192.168.0.7");
        to_port = 11310;
        payload = payload;
      }
          ∷ [],
      returned true (hello_there ∷ web ∷ web ∷ []),
    )
unfolding concat announcements announced matching localize equal
threads_example =
    send_query-threads bb_be (text "192.168.0") (text "7:11310") queries 11310 (peer ∷ [])
      (text "192.168.0.7") (text "old") [] (unfold before_last in refl) FitsBroadcast-queries
      (IsServing-peer, tt)

-- The client asks from an address of another network.
off_network : IsOnNoInterface (text "10.0.0" ++ b'.' ∷ []) interfaces
off_network = (
  (λ (rest, e). ground (arith, e), tt),
  ((λ (rest, e). ground (arith, e), (λ (rest, e). ground (arith, e), tt)), tt),
)

host_has_no_dot : IsWithout b'.' (text "7:11310")
host_has_no_dot = omega arith

elsewhere_example :
    let received = received_bytes (query_message bb_be queries) in
    client_handler bb_le interfaces
      (record { family = af_inet; text = text "10.0.0" ++ (b'.' ∷ text "7:11310") })
      7
      services
      (received ++ text "junk")
      (length received)
    ≡ done (
        response_message bb_le (record { body = b'S' ∷ section web; count = 1 })
        ∷ response_message bb_le (record { body = section web; count = 1 })
        ∷ [])
unfolding pieces Unresolved.addressed matching equal section le_bytes
elsewhere_example =
    client_handler-elsewhere bb_be bb_le (text "10.0.0") (text "7:11310") 7 interfaces services
      queries (text "junk") host_has_no_dot off_network (FitsSection-hello, (FitsSection-web, tt))
      (omega arith) FitsBroadcast-queries
