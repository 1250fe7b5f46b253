-- ===== src/Nyansd/Discovery/Truncated.antt =====
-- A query that a server answers with more than the client's receive buffer holds.
use nyan_sd.Base.{
  ℕ, ◌<◌, ◌≤◌, ◌≡◌, refl, sym, ap, ◌∙◌, false, List, [], ◌∷◌, ◌++◌, arith, length, All, All-append,
  append-nil, append_assoc, le→ltb, map, map-append, Bytes,
}
use nyan_sd.ByteBauble.{BbEndianness}
use nyan_sd.Nyansd.{Service, Query}
use nyan_sd.Nyansd.Handler.Announced.{FitsServer, announced, FitsMessage-announced}
use nyan_sd.Nyansd.Handler.Queries.{FitsBroadcast, handle_datagram-query_message}
use nyan_sd.Nyansd.Response.{buffer_size, returned}
use nyan_sd.Nyansd.Response.Message.{message}
use nyan_sd.Nyansd.Response.Datagram.{datagram, concat, received, FitsDatagram}
use nyan_sd.Nyansd.Response.Truncated.{cut, cut-received, cut-long, parse_buffers-cut}
use nyan_sd.Nyansd.SendQuery.{
  query_message, broadcast_address, Receive, receive_loop, use_interface, use_interfaces,
  send_query,
}
use nyan_sd.Nyansd.Discovery.{
  Server, replies, all_replies, announcements, CanAnswer, working, single, singles,
  services_in-singles, map-message, all_replies-announcements, FitsDatagram-single,
  FitsDatagram-announcements,
}

-- The datagrams as the client receives them, each cut to its buffer's size.
pub cut_arrivals : Bytes → List Bytes → List Receive
cut_arrivals junk [] = []
cut_arrivals junk (m ∷ ms) = Receive.datagram (cut junk m) ∷ cut_arrivals junk ms

receive_loop-cut_arrivals :
    (junk : Bytes) (svss : List (List Service)) (svs : List Service) (rest : List Bytes)
    → All FitsDatagram (singles junk svss)
    → receive_loop (cut_arrivals junk (map message svss ++ message svs ∷ rest))
      ≡ map received (singles junk svss)
        ++ cut junk (message svs) ∷ receive_loop (cut_arrivals junk rest)
unfolding receive_loop cut_arrivals singles
receive_loop-cut_arrivals junk [] svs rest fs = refl
receive_loop-cut_arrivals junk (first ∷ svss) svs rest (f, fs) =
    let short : length (message first) ≤ buffer_size =
      unfold datagram in (rw append-nil at f.length_fits) in
    rw (cut-received junk first short, receive_loop-cut_arrivals junk svss svs rest fs) refl

all_replies-append :
    (ss more : List Server) (payload : Bytes)
    → all_replies (ss ++ more) payload ≡ all_replies ss payload ++ all_replies more payload
unfolding all_replies
all_replies-append [] more payload = refl
all_replies-append (s ∷ ss) more payload =
    ap (◌++◌ (replies s payload)) (all_replies-append ss more payload)
    ∙ sym (append_assoc (replies s payload) (all_replies ss payload) (all_replies more payload))

singles-append :
    (junk : Bytes) (xss yss : List (List Service))
    → singles junk (xss ++ yss) ≡ singles junk xss ++ singles junk yss
unfolding singles
singles-append junk [] yss = refl
singles-append junk (xs ∷ xss) yss = ap (◌∷◌ (single junk xs)) (singles-append junk xss yss)

-- What the servers up to `big` answer to the queries before the one for which it says too much.
abbrev pub heard : List Server → Server → List Query → List Query → List (List Service)
heard ss big before qs = announcements ss qs ++ map (announced big.local big.services) before

module _ (client : BbEndianness) (ss : List Server) (big : Server) (more : List Server)
    (before : List Query) (q : Query) (behind : List Query) where
  sent_before :
      FitsBroadcast (before ++ q ∷ behind)
      → All (CanAnswer (before ++ q ∷ behind)) ss
      → FitsServer big.local big.services
      → (rest : List Bytes) × (all_replies
            (ss ++ big ∷ more)
            (query_message client (before ++ q ∷ behind))
          ≡ map message (heard ss big before (before ++ q ∷ behind))
            ++ message (announced big.local big.services q) ∷ rest)
  unfolding all_replies replies
  sent_before g fs f =
      let qs = before ++ q ∷ behind in
      let answer = λ (p : Query). message (announced big.local big.services p) in
      let payload = query_message client qs in
      let rest = map answer behind ++ all_replies more payload in
      let front = map message (map (announced big.local big.services) before) in
      (
        rest,
        rw
            (
              all_replies-append ss (big ∷ more) payload,
              all_replies-announcements client ss qs g fs,
              handle_datagram-query_message client big.machine big.local big.services qs
                  big.leftover f g,
              map-append answer before (q ∷ behind),
              map-message big before,
              map-append message (announcements ss qs)
                  (map (announced big.local big.services) before),
            )
            (simp append_assoc),
      )

  FitsDatagram-heard :
      (junk : Bytes)
      → FitsBroadcast (before ++ q ∷ behind)
      → All (CanAnswer (before ++ q ∷ behind)) ss
      → FitsServer big.local big.services
      → All (λ p. length (message (announced big.local big.services p)) ≤ buffer_size) before
      → All FitsDatagram (singles junk (heard ss big before (before ++ q ∷ behind)))
  FitsDatagram-heard junk g fs f short =
      let qs = before ++ q ∷ behind in
      let own = map (announced big.local big.services) before in
      rw (singles-append junk (announcements ss qs) own) (
        All-append FitsDatagram (singles junk (announcements ss qs)) (singles junk own)
          (FitsDatagram-announcements junk ss qs fs)
          (rw (append-nil own) at
            (FitsDatagram-single junk big before f short [] (unfold singles in tt))))

  -- Somebody's response to a query is longer than the client's buffer of 2048 bytes: `big`
  -- announces that much for `q`. On a machine with one working interface `sendQuery` then returns
  -- false, and of the services only those have been appended that the servers before `big`
  -- announce, and `big` itself for the queries before `q`. What it and any other servers answer
  -- later is lost. Queries and services fit their messages.
  pub send_query-truncated :
      (port : ℕ) (ip junk : Bytes) (out : List Service)
      → FitsBroadcast (before ++ q ∷ behind)
      → All (CanAnswer (before ++ q ∷ behind)) ss
      → FitsServer big.local big.services
      → All (λ p. length (message (announced big.local big.services p)) ≤ buffer_size) before
      → buffer_size < length (message (announced big.local big.services q))
      → let qs = before ++ q ∷ behind in
        let payload = query_message client qs in
        let back = cut_arrivals junk (all_replies (ss ++ big ∷ more) payload) in
        send_query client port qs (working ip back ∷ []) out ≡ (
          record { to_address = broadcast_address ip; to_port = port; payload = payload } ∷ [],
          returned false (out ++ concat (heard ss big before qs)),
        )
  unfolding send_query use_interfaces use_interface
  send_query-truncated port ip junk out g fs f short long =
      let qs = before ++ q ∷ behind in
      let (rest, e) = sent_before g fs f in
      let fit = FitsDatagram-heard junk g fs f short in
      rw (
        le→ltb 255 (length qs) (omega (arith, g.count_fits)),
        le→ltb (length qs) 1 (omega (arith, g.some_query)),
        e,
        receive_loop-cut_arrivals junk (heard ss big before qs) (announced big.local big.services q)
            rest fit,
        append-nil (
            map received (singles junk (heard ss big before qs))
            ++ cut junk (message (announced big.local big.services q))
              ∷ receive_loop (cut_arrivals junk rest)),
        cut-long junk (message (announced big.local big.services q)) long,
        parse_buffers-cut client (singles junk (heard ss big before qs))
            (announced big.local big.services q) buffer_size junk
            (receive_loop (cut_arrivals junk rest)) out fit
            (FitsMessage-announced big.local big.services q f) (omega arith) long,
        services_in-singles junk (heard ss big before qs),
      )
