-- ===== src/Arduino/Unterminated.antt =====
-- The texts of the services that a caller of `getResponses` is given.
use nyan_sd.Base.{ℕ, ◌<◌, ◌≡◌, ◌≢◌, Bool, some, List, [], ◌∷◌, length, map, All, Bytes}
use nyan_sd.Nyansd.{Service}
use nyan_sd.Nyansd.Response.Message.{message, FitsMessage}
use nyan_sd.Arduino.{
  Block, NysdService, Query, Client, dangling, send_query, returned, get_responses,
}
use nyan_sd.Arduino.Parse.{stored, firsts}
use nyan_sd.Arduino.Session.{receive_all, from_port, get_responses-receive_all}

-- None of the bytes is a terminator.
abbrev pub IsPlain : Bytes → Type 0
IsPlain s = All (λ c. c ≢ 0) s

-- Reading on from the pointer, a terminator is met behind the memory or not at all.
abbrev pub IsUnterminated : Block → Type 0
IsUnterminated b = IsPlain b.bytes

abbrev pub HasPlainTexts : Service → Type 0
HasPlainTexts sv = IsPlain sv.ipv6 × IsPlain sv.hostname × IsPlain sv.service

abbrev pub HasNoEnds : NysdService → Type 0
HasNoEnds sv = IsUnterminated sv.ipv6 × IsUnterminated sv.hostname × IsUnterminated sv.service

firsts-HasNoEnds :
    (svss : List (List Service)) → All (All HasPlainTexts) svss → All HasNoEnds (firsts svss)
unfolding firsts stored
firsts-HasNoEnds [] h = tt
firsts-HasNoEnds ([] ∷ svss) (h, hs) = firsts-HasNoEnds svss hs
firsts-HasNoEnds ((sv ∷ svs) ∷ svss) ((h, _), hs) = (h, firsts-HasNoEnds svss hs)

-- After a query, when the datagrams that arrive from the queried port are one response message
-- each, and at least one, and no text in them holds a zero byte, `getResponses` returns 0 with the
-- first service of each, and of none of these does the caller learn where the IPv6 text, the
-- hostname or the name ends: they are given by pointers only, to memory with no terminator in it.
pub get_responses-unterminated :
    (of_char : ℕ → Bytes) (port : ℕ) (qs : List Query) (can_send : Bool) (c : Client)
    (arrivals : List (Bytes × ℕ)) (svs : List Service) (svss : List (List Service))
    → 0 < length qs
    → FitsMessage svs
    → All FitsMessage svss
    → All (All HasPlainTexts) (svs ∷ svss)
    → from_port port arrivals ≡ map message (svs ∷ svss)
    → let found = firsts (svs ∷ svss) in
      ((c' : Client) × (receive_all arrivals (send_query of_char port qs can_send c).client
          ≡ some c')
        × (get_responses c'
            ≡ returned 0 (record c' { response = dangling }) found (some (length found))))
      × All HasNoEnds found
get_responses-unterminated of_char port qs can_send c arrivals svs svss some_query f fs plain e = (
  get_responses-receive_all of_char port qs can_send c arrivals svs svss some_query f fs e,
  firsts-HasNoEnds (svs ∷ svss) plain,
)
