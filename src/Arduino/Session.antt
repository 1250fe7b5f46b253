-- ===== src/Arduino/Session.antt =====
-- A query, the datagrams that arrive after it, and reading them.
use nyan_sd.Base.{
  ℕ, suc, ◌+◌, ◌<◌, ◌≡◌, refl, sym, ap, ◌∙◌, Bool, true, false, Bool-cases, inl, inr, Option, none,
  some, List, [], ◌∷◌, ◌++◌, arith, length, map, append-nil, append_assoc, ◌==◌, le→ltb,
  if◌then◌else◌, All, Bytes,
}
use nyan_sd.Nyansd.{Service}
use nyan_sd.Nyansd.Response.Message.{message, FitsMessage}
use nyan_sd.Arduino.{
  Query, Client, Chain, null, nodes, dangling, attach, store_response, udp_receive_callback,
  send_query, returned, get_loop, get_responses,
}
use nyan_sd.Arduino.Parse.{firsts, get_responses-firsts}

-- The callback is called for datagram after datagram, each with the port that it came from.
unfoldable pub receive_all : List (Bytes × ℕ) → Client → Option Client
receive_all [] c = some c
receive_all ((bytes, port) ∷ arrivals) c = elim (udp_receive_callback bytes port c) [
  | none ↦ none
  | some c' ↦ receive_all arrivals c'
]

-- The datagrams that came from a port.
abbrev pub from_port : ℕ → List (Bytes × ℕ) → List Bytes
from_port port [] = []
from_port port ((bytes, p) ∷ arrivals) =
    let rest = from_port port arrivals in if p == port then bytes ∷ rest else rest

abbrev pub chain : List Bytes → Chain
chain [] = null
chain (d ∷ ds) = nodes d ds

abbrev pub flag : Bool → List Bytes → Bool
flag b [] = b
flag b (d ∷ ds) = true

attach-chain :
    (bytes : Bytes) (ds : List Bytes) → attach bytes (chain ds) ≡ some (chain (ds ++ bytes ∷ []))
unfolding attach
attach-chain bytes [] = refl
attach-chain bytes (d ∷ ds) = refl

-- The members after some datagrams from the port.
abbrev pub with_datagrams : List Bytes → Client → List Bytes → Client
with_datagrams ds c ps = record c {
  response = chain (ds ++ ps);
  count = c.count + length ps;
  received = flag c.received ps;
}

callback-stored :
    (bytes : Bytes) (ds : List Bytes) (c : Client) (p : ℕ)
    → c.response ≡ chain ds
    → (p == c.port) ≡ true
    → udp_receive_callback bytes p c ≡ some (with_datagrams ds c (bytes ∷ []))
unfolding udp_receive_callback store_response
callback-stored bytes ds c p h e =
    rw e (ap (store_response c) (ap (attach bytes) h ∙ attach-chain bytes ds))

client_path :
    (c : Client) {r r' : Chain} {n n' : ℕ} {b b' : Bool}
    → r ≡ r'
    → n ≡ n'
    → b ≡ b'
    → ◌≡◌ {A = Client}
        (record c { response = r; count = n; received = b })
        (record c { response = r'; count = n'; received = b' })
client_path c p q e = λ i. record c { response = p i; count = q i; received = e i }

flag-true : (ps : List Bytes) → flag true ps ≡ true
flag-true [] = refl
flag-true (p ∷ ps) = refl

callback-ignored :
    (bytes : Bytes) (c : Client) (p : ℕ)
    → (p == c.port) ≡ false
    → udp_receive_callback bytes p c ≡ some c
unfolding udp_receive_callback
callback-ignored bytes c p e = rw e

pub receive_all_lem :
    (arrivals : List (Bytes × ℕ)) (ds : List Bytes) (c : Client)
    → c.response ≡ chain ds
    → receive_all arrivals c ≡ some (with_datagrams ds c (from_port c.port arrivals))
unfolding receive_all
receive_all_lem [] ds c h =
    ap some (client_path c (h ∙ ap chain (sym (append-nil ds))) (omega arith) refl)
receive_all_lem ((bytes, p) ∷ arrivals) ds c h = elim (Bool-cases (p == c.port)) [
  | inl same ↦
      let ps = from_port c.port arrivals in
      rw (same, callback-stored bytes ds c p h same, receive_all)
        (receive_all_lem arrivals (ds ++ bytes ∷ []) (with_datagrams ds c (bytes ∷ [])) refl
          ∙ ap some (
              client_path c (ap chain (append_assoc ds (bytes ∷ []) ps)) (omega arith)
                (flag-true ps)))
  | inr other ↦
      rw (other, callback-ignored bytes c p other, receive_all) (receive_all_lem arrivals ds c h)
]

-- The members after a query that could be composed.
abbrev pub asked : ℕ → Client → Client
asked port c = record c { port = port; response = null; count = 0 }

pub send_query-asked :
    (of_char : ℕ → Bytes) (port : ℕ) (qs : List Query) (can_send : Bool) (c : Client)
    → 0 < length qs
    → (send_query of_char port qs can_send c).client ≡ asked port c
unfolding send_query
send_query-asked of_char port qs can_send c h = rw (le→ltb (length qs) 1 (omega arith))

pub length-map-message : (svss : List (List Service)) → length (map message svss) ≡ length svss
length-map-message [] = refl
length-map-message (svs ∷ svss) = ap suc (length-map-message svss)

-- After a query, when the datagrams that arrive from the queried port are one response message
-- each, and at least one, the callbacks store them in order and pass over those from other ports;
-- `getResponses` then returns 0 with the first service of each message.
pub get_responses-receive_all :
    (of_char : ℕ → Bytes) (port : ℕ) (qs : List Query) (can_send : Bool) (c : Client)
    (arrivals : List (Bytes × ℕ)) (svs : List Service) (svss : List (List Service))
    → 0 < length qs
    → FitsMessage svs
    → All FitsMessage svss
    → from_port port arrivals ≡ map message (svs ∷ svss)
    → (c' : Client) × (receive_all arrivals (send_query of_char port qs can_send c).client
        ≡ some c')
      × (get_responses c'
          ≡ returned 0
              (record c' { response = dangling })
              (firsts (svs ∷ svss))
              (some (length (firsts (svs ∷ svss)))))
get_responses-receive_all of_char port qs can_send c arrivals svs svss some_query f fs e =
    let c' : Client = with_datagrams [] (asked port c) (map message (svs ∷ svss)) in
    (
      c',
      ap (receive_all arrivals) (send_query-asked of_char port qs can_send c some_query)
          ∙ receive_all_lem arrivals [] (asked port c) refl
          ∙ ap (λ ps. some (with_datagrams [] (asked port c) ps)) e,
      get_responses-firsts svs svss c' f fs refl (omega (arith, length-map-message svss)) refl,
    )

-- When no datagram arrives from the queried port, `getResponses` returns 1 after the first query;
-- but once any was received for an earlier query, it returns 0 with no services.
pub get_responses-silent :
    (of_char : ℕ → Bytes) (port : ℕ) (qs : List Query) (can_send : Bool) (c : Client)
    (arrivals : List (Bytes × ℕ))
    → 0 < length qs
    → from_port port arrivals ≡ []
    → (c' : Client) × (receive_all arrivals (send_query of_char port qs can_send c).client
        ≡ some c')
      × (c.received ≡ false → get_responses c' ≡ returned 1 c' [] none)
      × (c.received ≡ true → get_responses c' ≡ returned 0 c' [] (some 0))
unfolding get_responses get_loop
get_responses-silent of_char port qs can_send c arrivals some_query e =
    let c' : Client = with_datagrams [] (asked port c) [] in
    (
      c',
      ap (receive_all arrivals) (send_query-asked of_char port qs can_send c some_query)
          ∙ receive_all_lem arrivals [] (asked port c) refl
          ∙ ap (λ ps. some (with_datagrams [] (asked port c) ps)) e,
      λ fresh. rw fresh,
      λ stale. rw stale,
    )
