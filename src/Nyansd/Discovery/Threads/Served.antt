-- ===== src/Nyansd/Discovery/Threads/Served.antt =====
-- What a client hears from the threads that serve it.
use nyan_sd.Base.{
  ℕ, ◌≡◌, ◌≢◌, refl, sym, ap, ◌∙◌, true, false, none, List, [], ◌∷◌, ◌++◌, arith, All, All-append,
  append_assoc, append-nil, map, map-append, equal, equal_iff, equal_refl, Bytes,
}
use nyan_sd.ByteBauble.{BbEndianness}
use nyan_sd.Nyansd.{Service, Query}
use nyan_sd.Nyansd.LocalIp.{SocketAddress, before_last, found}
use nyan_sd.Nyansd.Handler.{messages_sent}
use nyan_sd.Nyansd.Handler.Queries.{FitsBroadcast, handle_datagram-query_message}
use nyan_sd.Nyansd.Handler.Thread.{Reply, ThreadEnd, listening_thread}
use nyan_sd.Nyansd.Handler.Thread.Answered.{
  client_at, Question, Round, asks, other, event_of, asker, responses_to, addressed, replies_in,
  IsOrdinary, AllSent, listening_thread-answers,
}
use nyan_sd.Nyansd.SendQuery.{query_message, broadcast_address, send_query}
use nyan_sd.Nyansd.Response.{returned}
use nyan_sd.Nyansd.Response.Datagram.{concat}
use nyan_sd.Nyansd.Discovery.{
  replies, arrivals, all_replies, announcements, CanAnswer, working, send_query-announcements,
}
use nyan_sd.Nyansd.Discovery.Threads.{
  Peer, sent_to, thread_run, heard_from, server_of, IsElse, IsServing,
}

sent_to-append :
    (to : SocketAddress) (rs rs' : List Reply)
    → sent_to to (rs ++ rs') ≡ sent_to to rs ++ sent_to to rs'
unfolding sent_to
sent_to-append to [] rs' = refl
sent_to-append to (r ∷ rs) rs' = ground (arith, sent_to-append to rs rs')

sent_to-addressed : (to : SocketAddress) (ms : List Bytes) → sent_to to (addressed to ms) ≡ ms
unfolding sent_to
sent_to-addressed to [] = refl
sent_to-addressed to (m ∷ ms) = rw (equal_refl to.text, sent_to-addressed to ms) refl

sent_to-else :
    (to to' : SocketAddress) (ms : List Bytes)
    → to.text ≢ to'.text
    → sent_to to (addressed to' ms) ≡ []
unfolding sent_to
sent_to-else to to' [] h = refl
sent_to-else to to' (m ∷ ms) h =
    let differs : equal to.text to'.text ≡ false = ground (arith, equal_iff to.text to'.text) in
    rw (differs, sent_to-else to to' ms h) refl

sent_to-replies_in :
    (to : SocketAddress) (rs : List Round) → All (IsElse to) rs → sent_to to (replies_in rs) ≡ []
unfolding replies_in
sent_to-replies_in to [] h = unfold sent_to in refl
sent_to-replies_in to (asks q ∷ rs) (h, hs) =
    rw
      (
        sent_to-append to (addressed (asker q) (responses_to q)) (replies_in rs),
        sent_to-else to (asker q) (responses_to q) h,
        sent_to-replies_in to rs hs,
      )
      refl
sent_to-replies_in to (other e ∷ rs) (h, hs) = sent_to-replies_in to rs hs

replies_in-append : (rs rs' : List Round) → replies_in (rs ++ rs') ≡ replies_in rs ++ replies_in rs'
unfolding replies_in
replies_in-append [] rs' = refl
replies_in-append (asks q ∷ rs) rs' = rw (replies_in-append rs rs') (simp append_assoc)
replies_in-append (other e ∷ rs) rs' = replies_in-append rs rs'

all_sent : (rs : List Reply) → AllSent (λ to m. true) rs
all_sent [] = tt
all_sent (r ∷ rs) = (refl, all_sent rs)

module _ (client : BbEndianness) (net host : Bytes) (qs : List Query) where
  -- The client's question, as the server's thread meets it.
  question_to : Peer → Question
  question_to p = record {
    client = client;
    net = net;
    host = host;
    queries = qs;
    address = p.address;
    services = p.services;
    uninit = p.uninit;
    junk = p.junk;
  }

  thread_run-replies :
      (p : Peer)
      → before_last b'.' host ≡ none
      → FitsBroadcast qs
      → IsServing net host qs p
      → thread_run (client_at net host) (query_message client qs) p ≡ (
        replies_in p.before
            ++ (addressed (client_at net host) (responses_to (question_to p))
                ++ replies_in p.after),
        ThreadEnd.returned,
      )
  unfolding thread_run question_to replies_in
  thread_run-replies p h g s =
      let rounds = p.before ++ asks (question_to p) ∷ p.after in
      ap (listening_thread p.machine p.interfaces (λ to m. true) true)
        (sym (map-append event_of p.before (asks (question_to p) ∷ p.after)))
      ∙ listening_thread-answers p.machine p.interfaces (λ to m. true) rounds
          (All-append (IsOrdinary p.machine p.interfaces) p.before (asks (question_to p) ∷ p.after)
            s.before_ordinary
            (
              record {
                address_fits = s.address_fits;
                host_has_no_dot = h;
                on_network = s.on_network;
                services_fit = s.can_answer.services_fit;
                queries_fit = g;
              },
              s.after_ordinary,
            ))
          (all_sent (replies_in rounds))
      ∙ ap (λ rs. (rs, ThreadEnd.returned))
          (replies_in-append p.before (asks (question_to p) ∷ p.after))

  sent_to-thread_run :
      (p : Peer)
      → before_last b'.' host ≡ none
      → FitsBroadcast qs
      → IsServing net host qs p
      → sent_to (client_at net host) (thread_run (client_at net host) (query_message client qs) p).0
        ≡ replies (server_of p) (query_message client qs)
  unfolding replies question_to
  sent_to-thread_run p h g s =
      let to = client_at net host in
      let ms = responses_to (question_to p) in
      ap (λ r. sent_to to r.0) (thread_run-replies p h g s)
      ∙ sent_to-append to (replies_in p.before) (addressed to ms ++ replies_in p.after)
      ∙ rw
          (
            sent_to-replies_in to p.before s.before_else,
            sent_to-append to (addressed to ms) (replies_in p.after),
            sent_to-addressed to ms,
            sent_to-replies_in to p.after s.after_else,
          )
          (append-nil ms)
      ∙ sym (
          ap messages_sent (
            handle_datagram-query_message client p.machine (found p.address []) p.services qs p.junk
              s.can_answer.services_fit g))

  pub heard_from-all_replies :
      (ps : List Peer)
      → before_last b'.' host ≡ none
      → FitsBroadcast qs
      → All (IsServing net host qs) ps
      → heard_from (client_at net host) (query_message client qs) ps
        ≡ all_replies (map server_of ps) (query_message client qs)
  unfolding heard_from all_replies
  heard_from-all_replies [] h g ss = refl
  heard_from-all_replies (p ∷ ps) h g (s, ss) =
      rw (sent_to-thread_run p h g s, heard_from-all_replies ps h g ss) refl

  answering :
      (ps : List Peer) → All (IsServing net host qs) ps → All (CanAnswer qs) (map server_of ps)
  answering [] ss = tt
  answering (p ∷ ps) (s, ss) = (s.can_answer, answering ps ss)

  -- The whole way of a query over one network. The message that `sendQuery` broadcasts from a
  -- machine with one working interface reaches the threads of some servers, each between any other
  -- rounds of its loop, which are ordinary: other clients ask, or nothing, or what is no broadcast
  -- message. Each thread finds the address of its own interface on the client's network. When what
  -- they send to the client comes back, `sendQuery` returns true with the services that match (all,
  -- or those whose name is exactly the filter), by server, by query and in the order of
  -- registration, those with no address of their own under the address found. Byte orders may
  -- differ; queries, services and responses fit.
  pub send_query-threads :
      (port : ℕ) (ps : List Peer) (ip junk : Bytes) (out : List Service)
      → before_last b'.' host ≡ none
      → FitsBroadcast qs
      → All (IsServing net host qs) ps
      → let payload = query_message client qs in
        let back = arrivals junk (heard_from (client_at net host) payload ps) in
        send_query client port qs (working ip back ∷ []) out ≡ (
          record { to_address = broadcast_address ip; to_port = port; payload = payload } ∷ [],
          returned true (out ++ concat (announcements (map server_of ps) qs)),
        )
  send_query-threads port ps ip junk out h g ss =
      rw (heard_from-all_replies ps h g ss)
        (send_query-announcements client port qs (map server_of ps) ip junk out g (answering ps ss))
