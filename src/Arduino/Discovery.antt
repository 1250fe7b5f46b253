-- ===== src/Arduino/Discovery.antt =====
-- A query of the microcontroller answered by servers of the library.
use nyan_sd.Base.{
  ℕ, ◌<◌, ◌≡◌, ap, ◌∙◌, Bool, some, List, [], ◌∷◌, ◌++◌, arith, length, map, All, All-append,
  le→ltb, Bytes,
}
use nyan_sd.ByteBauble.{bb_le}
use nyan_sd.Nyansd as Library
use nyan_sd.Nyansd.{Service}
use nyan_sd.Nyansd.Handler.Announced.{announced, FitsMessage-announced}
use nyan_sd.Nyansd.Handler.Queries.{FitsBroadcast}
use nyan_sd.Nyansd.Response.Message.{FitsMessage}
use nyan_sd.Nyansd.Discovery.{
  Server, all_replies, announcements, CanAnswer, all_replies-announcements,
}
use nyan_sd.Arduino.{Query, Client, dangling, query_message, send_query, returned, get_responses}
use nyan_sd.Arduino.Compose.{full, GivesLength, length-full, query_message-full}
use nyan_sd.Arduino.Parse.{firsts}
use nyan_sd.Arduino.Session.{receive_all, from_port, get_responses-receive_all}

FitsMessage-map-announced :
    (s : Server) (qs : List Library.Query)
    → {fqs : List Library.Query} → CanAnswer fqs s
    → All FitsMessage (map (announced s.local s.services) qs)
FitsMessage-map-announced s [] f = tt
FitsMessage-map-announced s (q ∷ qs) f =
    (FitsMessage-announced s.local s.services q f.services_fit, FitsMessage-map-announced s qs f)

FitsMessage-announcements :
    (ss : List Server) (qs : List Library.Query)
    → All (CanAnswer qs) ss
    → All FitsMessage (announcements ss qs)
unfolding announcements
FitsMessage-announcements [] qs h = tt
FitsMessage-announcements (s ∷ ss) qs (h, hs) =
    All-append FitsMessage (map (announced s.local s.services) qs) (announcements ss qs)
      (FitsMessage-map-announced s qs h) (FitsMessage-announcements ss qs hs)

-- The microcontroller's query is understood by the library's servers, of any byte order, and their
-- responses by it. When the datagrams that arrive from the queried port are the responses of one
-- or more servers, in order and among any others from other ports, `getResponses` returns 0, with
-- the first service, if there is one, of what each server announces for each query; its texts are
-- the bytes of the memory that its pointers lead to. Each query
-- gives the length of its filter, `String(char)` makes a text of that character, and queries,
-- services and responses fit their messages and buffers.
pub get_responses-announcements :
    (of_char : ℕ → Bytes) (port : ℕ) (qs : List Query) (can_send : Bool) (c : Client)
    (server : Server) (servers : List Server) (arrivals : List (Bytes × ℕ))
    → ((char : ℕ) → of_char char ≡ char ∷ [])
    → All GivesLength qs
    → FitsBroadcast (map full qs)
    → All (CanAnswer (map full qs)) (server ∷ servers)
    → from_port port arrivals ≡ all_replies (server ∷ servers) (query_message of_char qs)
    → let found = firsts (announcements (server ∷ servers) (map full qs)) in
      ((send_query of_char port qs can_send c).sent ≡ some (query_message of_char qs))
      × (c' : Client) × (receive_all arrivals (send_query of_char port qs can_send c).client
          ≡ some c')
      × (get_responses c'
          ≡ returned 0 (record c' { response = dangling }) found (some (length found)))
unfolding announcements
get_responses-announcements of_char port [] can_send c server servers arrivals one h g fs e =
    absurd (omega (arith, g.some_query))
get_responses-announcements of_char port (q ∷ qs) can_send c server servers arrivals one h g (f, fs)
      e =
    let fits : All FitsMessage (announcements (server ∷ servers) (map full (q ∷ qs))) =
      FitsMessage-announcements (server ∷ servers) (map full (q ∷ qs)) (f, fs) in
    let (c', received, read) =
      get_responses-receive_all of_char port (q ∷ qs) can_send c arrivals
        (announced server.local server.services (full q))
        (map (announced server.local server.services) (map full qs)
          ++ announcements servers (map full (q ∷ qs)))
        (omega arith) fits.0 fits.1
        (e
          ∙ ap (all_replies (server ∷ servers))
              (query_message-full of_char bb_le (q ∷ qs) one h few)
          ∙ all_replies-announcements bb_le (server ∷ servers) (map full (q ∷ qs)) g (f, fs)) in
    (unfold send_query in rw (le→ltb (length (q ∷ qs)) 1 (omega arith)), c', received, read)
  where
    few : length (q ∷ qs) < 256
    few = omega (arith, g.count_fits, length-full (q ∷ qs))
