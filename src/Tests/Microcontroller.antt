-- ===== src/Tests/Microcontroller.antt =====
-- The client for microcontrollers.
use nyan_sd.Base.{
  ℕ, ◌≡◌, refl, sym, ap, ◌∙◌, true, false, none, some, List, [], ◌∷◌, map, arith, length, text,
  equal, Bytes, All,
}
use nyan_sd.ByteBauble.{bb_le, bb_be}
use nyan_sd.Nyansd.{tcp, all}
use nyan_sd.Nyansd.SendQuery as Full
use nyan_sd.Nyansd.Handler.Answers.{matching, localize}
use nyan_sd.Nyansd.Handler.Announced.{announced}
use nyan_sd.Nyansd.Handler.Queries.{FitsBroadcast}
use nyan_sd.Nyansd.Discovery.{all_replies, announcements, all_replies-announcements}
use nyan_sd.Nyansd.Response.Message.{message}
use nyan_sd.Arduino.{
  Query, Client, null, dangling, returned, crashed, query_message, send_query, get_responses,
  udp_receive_callback,
}
use nyan_sd.Arduino.Compose.{full, query_message-full}
use nyan_sd.Arduino.Parse.{firsts, stored}
use nyan_sd.Arduino.Dangling.{get_responses-twice}
use nyan_sd.Arduino.Session.{receive_all, from_port}
use nyan_sd.Arduino.Refused.{short, get_responses-Refused}
use nyan_sd.Arduino.Discovery.{get_responses-announcements}
use nyan_sd.Arduino.Unterminated.{HasPlainTexts, HasNoEnds, get_responses-unterminated}
use nyan_sd.Tests.Data.{
  hello, hello_there, web, services, alpha, CanAnswer-alpha, FitsMessage-services,
}

abbrev small_queries : List Query
small_queries =
    record { protocol = all; filter = []; length = 0 }
    ∷ record { protocol = tcp; filter = text "Web"; length = 3 }
    ∷ []

compose_example :
    query_message (λ c. c ∷ []) small_queries ≡ Full.query_message bb_be (map full small_queries)
compose_example =
    query_message-full (λ c. c ∷ []) bb_be small_queries (λ c. refl) (refl, (refl, tt))
      (omega arith)

FitsBroadcast-small : FitsBroadcast (map full small_queries)
unfolding Full.query_sections Full.query_section
FitsBroadcast-small = record {
  some_query = omega arith;
  count_fits = omega arith;
  each_fits = (omega arith, (omega arith, tt));
  length_fits = omega arith;
}

-- The responses of one server, with a datagram from another port between them.
abbrev mixed : List (Bytes × ℕ)
mixed =
    (message (hello_there ∷ web ∷ []), 11310)
    ∷ (text "other", 53)
    ∷ (message (web ∷ []), 11310)
    ∷ []

from_alpha :
    from_port 11310 mixed ≡ all_replies (alpha ∷ []) (query_message (λ c. c ∷ []) small_queries)
unfolding announcements announced matching localize equal
from_alpha = sym (
    ap (all_replies (alpha ∷ [])) (
      query_message-full (λ c. c ∷ []) bb_le small_queries (λ c. refl) (refl, (refl, tt))
        (omega arith))
    ∙ all_replies-announcements bb_le (alpha ∷ []) (map full small_queries) FitsBroadcast-small
        (CanAnswer-alpha, tt))

abbrev fresh_client : Client
fresh_client = record { response = null; count = 0; received = false; port = 0 }

discovery_example :
    ((send_query (λ c. c ∷ []) 11310 small_queries true fresh_client).sent
      ≡ some (query_message (λ c. c ∷ []) small_queries))
    × (c' : Client) × (receive_all mixed
          (send_query (λ c. c ∷ []) 11310 small_queries true fresh_client).client
        ≡ some c')
    × (get_responses c'
        ≡ returned 0
            (record c' { response = dangling })
            (stored hello_there ∷ stored web ∷ [])
            (some 2))
unfolding firsts announcements announced matching localize equal
discovery_example =
    get_responses-announcements (λ c. c ∷ []) 11310 small_queries true fresh_client alpha [] mixed
      (λ c. refl) (refl, (refl, tt)) FitsBroadcast-small (CanAnswer-alpha, tt) from_alpha

twice_example :
    (c₁ c₂ : Client) × (receive_all
        ((message services, 11310) ∷ [])
        (send_query (λ c. c ∷ []) 11310 small_queries true fresh_client).client
      ≡ some c₁)
    × (get_responses c₁
        ≡ returned 0 c₂ (firsts (services ∷ [])) (some (length (firsts (services ∷ [])))))
    × (get_responses c₂ ≡ crashed)
    × (udp_receive_callback (text "late") 11310 c₂ ≡ none)
twice_example =
    get_responses-twice (λ c. c ∷ []) 11310 small_queries true fresh_client
      ((message services, 11310) ∷ []) services [] (text "late") (omega arith) FitsMessage-services
      tt refl

-- A response, then four bytes.
abbrev disturbed : List (Bytes × ℕ)
disturbed = (message services, 11310) ∷ (text "NYAN", 11310) ∷ []

refused_example :
    (c' c₁ c₂ : Client) × (receive_all disturbed
        (send_query (λ c. c ∷ []) 11310 small_queries true fresh_client).client
      ≡ some c')
    × (get_responses c' ≡ returned 8 c₁ (firsts (services ∷ [])) none)
    × (receive_all ((message services, 11310) ∷ []) c₁ ≡ some c₂)
    × (get_responses c₂ ≡ returned 8 c₂ [] none)
refused_example =
    get_responses-Refused (λ c. c ∷ []) 11310 small_queries true fresh_client (services ∷ [])
      (text "NYAN") [] 8 disturbed ((message services, 11310) ∷ []) (omega arith)
      (FitsMessage-services, tt) (short refl (omega arith)) refl

plain_texts : All (All HasPlainTexts) (services ∷ [])
plain_texts =
    (((omega arith, omega arith, omega arith), ((omega arith, omega arith, omega arith), tt)), tt)

unterminated_example :
    ((c' : Client) × (receive_all
          ((message services, 11310) ∷ [])
          (send_query (λ c. c ∷ []) 11310 small_queries true fresh_client).client
        ≡ some c')
      × (get_responses c'
          ≡ returned 0 (record c' { response = dangling }) (stored hello ∷ []) (some 1)))
    × All HasNoEnds (stored hello ∷ [])
unfolding firsts
unterminated_example =
    get_responses-unterminated (λ c. c ∷ []) 11310 small_queries true fresh_client
      ((message services, 11310) ∷ []) services [] (omega arith) FitsMessage-services tt plain_texts
      refl
