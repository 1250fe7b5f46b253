-- ===== src/Nyansd/SendQuery.antt =====
-- src/nyansd.cpp: `sendQuery`. What Poco and the network do is given by the interfaces: for each,
-- its capabilities, its address, whether the datagram can be sent, and what comes back.
pub mod LongFilter
use nyan_sd.Base.{
  ℕ, ◌+◌, ◌%◌, ◌^◌, Bool, true, false, List, [], ◌∷◌, ◌++◌, ltb, take, drop, if◌then◌else◌, length,
  Bytes,
}
use nyan_sd.ByteBauble.{BbEndianness}
use nyan_sd.Nyansd.{broadcast, message_code, protocol_code, Service, Query, signature}
use nyan_sd.Nyansd.LocalIp.{erase_after_last}
use nyan_sd.Nyansd.Wire.{write_uint}
use nyan_sd.Nyansd.Response.{ResponseStruct, Outcome, returned, thrown, parse_buffers}

-- The section of one query; the length of its filter goes into one byte.
unfoldable pub query_section : Query → Bytes
query_section q =
    b'Q'
    ∷ protocol_code q.protocol
    ∷ (length q.filter % 256)
    ∷ (if ltb 0 (length q.filter % 256) then q.filter else [])

-- `for (int i = 0; i < qnum; ++i)`
unfoldable pub query_sections : List Query → Bytes
query_sections [] = []
query_sections (q ∷ qs) = query_section q ++ query_sections qs

unfoldable pub query_body : List Query → Bytes
query_body qs = (length qs % 256) ∷ query_sections (take (length qs % 256) qs)

-- The broadcast message; `len` is a uint16_t.
unfoldable pub query_message : BbEndianness → List Query → Bytes
query_message machine qs =
    signature
    ++ (write_uint machine 2 ((length (query_body qs) + 1) % 2 ^ 16)
        ++ (message_code broadcast ∷ query_body qs))

-- `ipStr.replace(ipStr.find_last_of('.') + 1, 3, "255")`
unfoldable pub broadcast_address : Bytes → Bytes
broadcast_address ip =
    let base = erase_after_last b'.' ip in base ++ (b'2' ∷ b'5' ∷ b'5' ∷ drop (length base + 3) ip)

-- The outcome of a `receiveBytes` after `select` has reported data.
pub data Receive : Type 0 where
  datagram : ResponseStruct → Receive
  timeout unknown : Receive

-- The first IPv4 address of an interface, or an exception.
pub data FirstAddress : Type 0 where
  address : Bytes → Bool → FirstAddress
  not_found exception : FirstAddress

-- What leaves `sendQuery`: an exception of the calls that open the socket, in front of the first
-- `try`, or of `select`, when that was called for the last time.
pub data Escape : Type 0 where
  no_escape at_opening at_select : Escape

pub record Interface : Type 0 where
  pub supports_ipv4 : Bool
  pub first_address : FirstAddress
  pub escape : Escape
  pub can_send : Bool
  pub receives : List Receive

-- A datagram that was sent, with its destination.
pub record Sent : Type 0 where
  pub to_address : Bytes
  pub to_port : ℕ
  pub payload : Bytes

-- The `select` loop keeps what was received.
unfoldable pub receive_loop : List Receive → List ResponseStruct
receive_loop [] = []
receive_loop (datagram rs ∷ events) = rs ∷ receive_loop events
receive_loop (timeout ∷ events) = receive_loop events
receive_loop (unknown ∷ events) = receive_loop events

pub record Traffic : Type 0 where
  pub sent : List Sent
  pub buffers : List ResponseStruct
  pub escaped : Bool

abbrev pub idle : Traffic
idle = record { sent = []; buffers = []; escaped = false }

-- From `sendTo` on, up to an exception of `select` if there is one.
listen_on : ℕ → Bytes → Bytes → Interface → Bool → Traffic
listen_on port msg ip ifc b =
    if ifc.can_send
    then record {
      sent = record { to_address = broadcast_address ip; to_port = port; payload = msg } ∷ [];
      buffers = receive_loop ifc.receives;
      escaped = b;
    }
    else idle

use_socket : ℕ → Bytes → Bytes → Interface → Escape → Traffic
unfolding listen_on
use_socket port msg ip ifc no_escape = listen_on port msg ip ifc false
use_socket port msg ip ifc at_opening = record idle { escaped = true }
use_socket port msg ip ifc at_select = listen_on port msg ip ifc true

-- An interface whose address is at hand. The second part of the pair is `isIPv4Compatible()`.
use_address : ℕ → Bytes → Interface → FirstAddress → Traffic
unfolding use_socket
use_address port msg ifc not_found = idle
use_address port msg ifc exception = idle
use_address port msg ifc (address ip compatible) =
    if compatible then use_socket port msg ip ifc ifc.escape else idle

-- One round of the loop over the interfaces; every failure in a `try` goes on with the next one.
unfoldable pub use_interface : ℕ → Bytes → Interface → Traffic
unfolding use_address
use_interface port msg ifc =
    if ifc.supports_ipv4 then use_address port msg ifc ifc.first_address else idle

unfoldable pub use_interfaces : ℕ → Bytes → List Interface → Traffic
use_interfaces port msg [] = idle
use_interfaces port msg (ifc ∷ ifcs) =
    let here = use_interface port msg ifc in
    let later = use_interfaces port msg ifcs in
    if here.escaped then here else record {
      sent = here.sent ++ later.sent;
      buffers = here.buffers ++ later.buffers;
      escaped = later.escaped;
    }

-- What was sent, and how the call ends.
unfoldable pub send_query :
    BbEndianness → ℕ → List Query → List Interface → List Service → List Sent × Outcome
send_query machine port queries interfaces responses =
    let traffic = use_interfaces port (query_message machine queries) interfaces in
    if ltb 255 (length queries)
    then ([], returned false responses)
    else if ltb (length queries) 1
    then ([], returned false responses)
    else if traffic.escaped
    then (traffic.sent, thrown)
    else (traffic.sent, parse_buffers machine traffic.buffers responses)
