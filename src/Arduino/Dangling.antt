-- ===== src/Arduino/Dangling.antt =====
-- The pointer to the received datagrams after they have been read.
use nyan_sd.Base.{
  ℕ, zero, suc, ◌<◌, ◌≡◌, refl, ap, ◌∙◌, true, some, none, List, [], ◌∷◌, map, length, All, Bool,
  arith, ==_iff, if◌then◌else◌, Bytes,
}
use nyan_sd.Nyansd.{Service}
use nyan_sd.Nyansd.Response.Message.{message, FitsMessage}
use nyan_sd.Arduino.{
  NysdService, Query, send_query, Client, dangling, returned, crashed, at_chain, get_loop,
  get_responses, udp_receive_callback, attach, store_response,
}
use nyan_sd.Arduino.Parse.{firsts, get_responses-firsts}
use nyan_sd.Arduino.Session.{
  receive_all, from_port, with_datagrams, asked, receive_all_lem, send_query-asked,
  length-map-message,
}

get_loop-dangling :
    (n : ℕ) (c : Client) (out : List NysdService)
    → 0 < n
    → c.response ≡ dangling
    → get_loop n c out ≡ crashed
unfolding get_loop at_chain
get_loop-dangling zero c out h e = absurd (omega arith)
get_loop-dangling (suc n) c out h e = ap (λ ch. at_chain c ch out (λ c' out'. get_loop n c' out')) e

-- When datagrams were received and counted, and the pointer to them is left at a deleted node,
-- both a call of `getResponses` and the callback for one more datagram from the queried port go
-- through that node.
dangling_is_used :
    (c : Client) (bytes : Bytes)
    → c.received ≡ true
    → 0 < c.count
    → c.response ≡ dangling
    → (get_responses c ≡ crashed) × (udp_receive_callback bytes c.port c ≡ none)
unfolding get_responses udp_receive_callback attach store_response
dangling_is_used c bytes r n e = (
  ap (λ b. if b then get_loop c.count c [] else returned 1 c [] none) r
      ∙ get_loop-dangling c.count c [] n e,
  ap (λ b. if b then store_response c (attach bytes c.response) else some c)
        ((==_iff c.port c.port).1 refl)
      ∙ ap (λ ch. store_response c (attach bytes ch)) e,
)

-- After a query, when the datagrams that arrive from the queried port are one response message
-- each, and at least one, `getResponses` returns 0 with the first service of each, and the pointer
-- to the datagrams is left at the last of them, which is deleted: both a second call of
-- `getResponses` and the callback for one more datagram from that port go through it.
pub get_responses-twice :
    (of_char : ℕ → Bytes) (port : ℕ) (qs : List Query) (can_send : Bool) (c : Client)
    (arrivals : List (Bytes × ℕ)) (svs : List Service) (svss : List (List Service)) (bytes : Bytes)
    → 0 < length qs
    → FitsMessage svs
    → All FitsMessage svss
    → from_port port arrivals ≡ map message (svs ∷ svss)
    → (c₁ c₂ : Client) × (receive_all arrivals (send_query of_char port qs can_send c).client
        ≡ some c₁)
      × (get_responses c₁
          ≡ returned 0 c₂ (firsts (svs ∷ svss)) (some (length (firsts (svs ∷ svss)))))
      × (get_responses c₂ ≡ crashed)
      × (udp_receive_callback bytes port c₂ ≡ none)
get_responses-twice of_char port qs can_send c arrivals svs svss bytes some_query f fs e =
    let c₁ : Client = with_datagrams [] (asked port c) (map message (svs ∷ svss)) in
    let c₂ : Client = record c₁ { response = dangling } in
    let (again, late) = dangling_is_used c₂ bytes refl (omega arith) refl in
    (
      c₁,
      c₂,
      ap (receive_all arrivals) (send_query-asked of_char port qs can_send c some_query)
          ∙ receive_all_lem arrivals [] (asked port c) refl
          ∙ ap (λ ps. some (with_datagrams [] (asked port c) ps)) e,
      get_responses-firsts svs svss c₁ f fs refl (omega (arith, length-map-message svss)) refl,
      again,
      late,
    )
