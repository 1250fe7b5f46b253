-- ===== src/Arduino.antt =====
-- arduino/client/nyansd_client.cpp and .h: the client for microcontrollers, on a little-endian
-- machine. (arduino/test/sming/app holds a copy of it.) The linked list of received datagrams is
-- a list; a pointer to a node that was deleted is a state of its own.
pub mod Dangling
pub mod Compose
pub mod Parse
pub mod Session
pub mod Discovery
pub mod Unterminated
pub mod Refused
pub mod Text
use nyan_sd.Base.{
  ℕ, zero, suc, ◌+◌, ◌-◌, ◌/◌, ◌%◌, ◌^◌, Bool, true, false, not, Option, none, some, List, [], ◌∷◌,
  ◌++◌, ltb, ◌==◌, if◌then◌else◌, equal, length, Bytes,
}
use nyan_sd.ByteBauble.{of_le}
use nyan_sd.Nyansd.{
  MessageType, broadcast, response, message_code, Protocol, protocol_code, all, signature,
}
use nyan_sd.Nyansd.Wire.{Scan, ok, refused, fault, ◌>>=◌, ◌>>◌, require, read8, read_bytes}
use nyan_sd.Nyansd.Response.{protocol_of}

-- `NYSD_query`: `filter` is the C string, up to its terminator; `length` is set by the caller.
pub record Query : Type 0 where
  pub protocol : Protocol
  pub filter : Bytes
  pub length : ℕ

-- What `new char[n]` gives, filled by `memcpy`: the pointer leads to these bytes and no others. It
-- tells neither their number nor where they end: nothing writes a terminator behind them.
pub record Block : Type 0 where
  pub bytes : Bytes

-- `NYSD_service`. The texts are pointers; a field that `parse_service` does not set has its
-- default.
pub record NysdService : Type 0 where
  pub ipv4 : ℕ
  pub ipv6 : Block
  pub port : ℕ
  pub hostname : Block
  pub service : Block
  pub protocol : Protocol

-- What `response` points to: nothing; a node and those behind it, the last being `last`; or a
-- node that has been deleted.
pub data Chain : Type 0 where
  null : Chain
  nodes : Bytes → List Bytes → Chain
  dangling : Chain

-- The static members.
pub record Client : Type 0 where
  pub response : Chain
  pub count : ℕ
  pub received : Bool
  pub port : ℕ

-- Attaching at the end; `last->next` of a deleted node is no write of C++.
unfoldable pub attach : Bytes → Chain → Option Chain
attach bytes null = some (nodes bytes [])
attach bytes (nodes d ds) = some (nodes d (ds ++ bytes ∷ []))
attach bytes dangling = none

store_response : Client → Option Chain → Option Client
store_response c none = none
store_response c (some chain) =
    some (record c { response = chain; count = c.count + 1; received = true })

-- `none` is a write through the dangling pointer.
unfoldable pub udp_receive_callback : Bytes → ℕ → Client → Option Client
unfolding store_response
udp_receive_callback bytes remote_port c =
    if remote_port == c.port then store_response c (attach bytes c.response) else some c

-- `body += ...` for one query: all of the C string goes out, whatever `length` says.
unfoldable pub query_section : Query → Bytes
query_section q =
    b'Q'
    ∷ protocol_code q.protocol
    ∷ (q.length % 256)
    ∷ (if ltb 0 (q.length % 256) then q.filter else [])

unfoldable pub query_sections : List Query → Bytes
query_sections [] = []
query_sections (q ∷ qs) = query_section q ++ query_sections qs

-- The message for an array of `qnum` queries. `of_char` is the constructor `String(char)` of the
-- framework; the bytes of `len` are taken as they lie in memory.
unfoldable pub query_message : (ℕ → Bytes) → List Query → Bytes
query_message of_char qs =
    let body = of_char (length qs) ++ query_sections qs in
    let len = (length body + 1) % 2 ^ 16 in
    signature
    ++ (of_char (len % 256) ++ (of_char (len / 256 % 256) ++ (message_code broadcast ∷ body)))

-- The returned code, the members, and the message handed to `sendStringTo`, which reports back
-- by `can_send`. `qnum` is the length of the array, at most 255 by its type.
pub record SendResult : Type 0 where
  pub code : ℕ
  pub client : Client
  pub sent : Option Bytes

unfoldable pub send_query : (ℕ → Bytes) → ℕ → List Query → Bool → Client → SendResult
send_query of_char port queries can_send c =
    if ltb (length queries) 1
    then record { code = 2; client = record c { port = port }; sent = none }
    else record {
      code = if can_send then 0 else 4;
      client = record c { port = port; response = null; count = 0 };
      sent = some (query_message of_char queries);
    }

-- `memcpy` into an integer.
unfoldable pub read_le : ℕ → Bytes → ℕ → Scan ℕ
read_le k buffer index = do raw ← read_bytes buffer index k; ok (of_le raw)

-- A service section.
unfoldable pub parse_service : Bytes → ℕ → Scan (NysdService × ℕ)
parse_service buffer i₀ = do
  tag ← read8 buffer i₀
  require (tag == b'S')
  let i₁ = i₀ + 1
  ipv4 ← read_le 4 buffer i₁
  let i₂ = i₁ + 4
  ipv6len ← read8 buffer i₂
  let i₃ = i₂ + 1
  ipv6 ← read_bytes buffer i₃ ipv6len
  let i₄ = i₃ + ipv6len
  hostlen ← read_le 2 buffer i₄
  let i₅ = i₄ + 2
  hostname ← read_bytes buffer i₅ hostlen
  let i₆ = i₅ + hostlen
  p ← read_le 2 buffer i₆
  let i₇ = i₆ + 2
  prot ← read8 buffer i₇
  let i₈ = i₇ + 1
  snlen ← read_le 2 buffer i₈
  let i₉ = i₈ + 2
  svname ← read_bytes buffer i₉ snlen
  let sv : NysdService = record {
    ipv4 = ipv4;
    ipv6 = record { bytes = ipv6 };
    port = p;
    hostname = record { bytes = hostname };
    service = record { bytes = svname };
    protocol = protocol_of prot all;
  }
  ok (sv, i₉ + snlen)

-- What reading one datagram leads to: the services added, a returned code, or a read outside it.
pub data Parsed : Type 0 where
  added : List NysdService → Parsed
  code : ℕ → Parsed
  overrun : Parsed

first_service : Scan (NysdService × ℕ) → Parsed
first_service (ok (sv, i)) = added (sv ∷ [])
first_service refused = code 12
first_service fault = overrun

-- The loop over the service sections, which ends with a `break` after the first one.
unfoldable pub parse_sections : Bytes → ℕ → ℕ → Parsed
unfolding first_service
parse_sections buffer zero index = added []
parse_sections buffer (suc rounds) index = first_service (parse_service buffer index)

with_count : Bytes → Scan ℕ → Parsed
with_count buffer (ok rnum) = parse_sections buffer rnum 10
with_count buffer refused = overrun
with_count buffer fault = overrun

with_type : Bytes → Scan ℕ → Parsed
unfolding with_count
with_type buffer (ok type) =
    if type == message_code response then with_count buffer (read8 buffer 9) else code 11
with_type buffer refused = overrun
with_type buffer fault = overrun

with_length : Bytes → Scan ℕ → Parsed
unfolding with_type
with_length buffer (ok len) =
    if ltb (length buffer - 8) len then code 10 else with_type buffer (read8 buffer 8)
with_length buffer refused = overrun
with_length buffer fault = overrun

with_signature : Bytes → Scan Bytes → Parsed
unfolding with_length
with_signature buffer (ok sig) =
    if equal sig signature then with_length buffer (read_le 2 buffer 6) else code 9
with_signature buffer refused = overrun
with_signature buffer fault = overrun

-- One round of the loop over the datagrams.
unfoldable pub parse_datagram : Bytes → Parsed
unfolding with_signature
parse_datagram buffer =
    if ltb (length buffer) 8 then code 8 else with_signature buffer (read_bytes buffer 0 6)

-- A call that returns: the code, the members, the services of `responses`, and `resnum` if it
-- was set. The other case is a read outside a datagram or through the dangling pointer.
pub data Responses : Type 0 where
  returned : ℕ → Client → List NysdService → Option ℕ → Responses
  crashed : Responses

-- After a node was read it is deleted; the pointer moves on only if there is a next one.
unfoldable pub advance : List Bytes → Chain
advance [] = dangling
advance (d ∷ ds) = nodes d ds

after_datagram :
    Client
    → List Bytes
    → List NysdService
    → Parsed
    → (Client → List NysdService → Responses)
    → Responses
after_datagram c rest out (added svs) next =
    next (record c { response = advance rest }) (out ++ svs)
after_datagram c rest out (code k) next = returned k c out none
after_datagram c rest out overrun next = crashed

at_chain : Client → Chain → List NysdService → (Client → List NysdService → Responses) → Responses
unfolding after_datagram
at_chain c null out next = crashed
at_chain c dangling out next = crashed
at_chain c (nodes d ds) out next = after_datagram c ds out (parse_datagram d) next

-- `for (int i = 0; i < count; ++i)`
unfoldable pub get_loop : ℕ → Client → List NysdService → Responses
unfolding at_chain
get_loop zero c out = returned 0 c out (some (length out))
get_loop (suc rounds) c out = at_chain c c.response out (λ c' out'. get_loop rounds c' out')

unfoldable pub get_responses : Client → Responses
get_responses c = if c.received then get_loop c.count c [] else returned 1 c [] none

unfoldable pub has_response : Client → Bool
has_response c = ltb 0 c.count

-- `to_text` is the framework's `IpAddress(o0, o1, o2, o3).toString()`.
unfoldable pub ipv4_uint_to_string : (ℕ → ℕ → ℕ → ℕ → Bytes) → ℕ → Bytes
ipv4_uint_to_string to_text ipv4 =
    to_text (ipv4 % 256) (ipv4 / 256 % 256) (ipv4 / 256 ^ 2 % 256) (ipv4 / 256 ^ 3 % 256)
