-- ===== src/Nyansd/Handler.antt =====
-- src/nyansd.cpp: `clientHandler`, from a received datagram to the responses sent.
pub mod Answers
pub mod Announced
pub mod Queries
pub mod TooLong
pub mod Arbitrary
pub mod Reads
pub mod Thread
pub mod Shared
pub mod Local
pub mod Unresolved
use nyan_sd.Base.{
  ℕ, zero, suc, ◌+◌, ◌-◌, ◌%◌, ◌^◌, Bool, true, false, not, Option, none, some, List, [], ◌∷◌, ◌++◌,
  ltb, ◌==◌, if◌then◌else◌, equal, length, take, Bytes,
}
use nyan_sd.ByteBauble.{BbEndianness}
use nyan_sd.Nyansd.{
  MessageType, broadcast, response, message_code, protocol_code, Service, signature,
}
use nyan_sd.Nyansd.LocalIp.{
  LocalIp, found, missing, thrown, Address, SocketAddress, remote_to_local_ip,
}
use nyan_sd.Nyansd.Wire.{
  Scan, ok, refused, fault, ◌>>=◌, ◌>>◌, require, read8, read_bytes, read_uint, write_uint,
}

-- `servicesBody` and `scount`.
pub record Answer : Type 0 where
  pub body : Bytes
  pub count : ℕ

abbrev pub no_answer : Answer
no_answer = record { body = []; count = 0 }

-- The address part of a section: the IPv4 address and the IPv6 text with its length.
unfoldable pub address_part : BbEndianness → ℕ → Bytes → Bytes
address_part machine ipv4 ipv6 = write_uint machine 4 ipv4 ++ (length ipv6 % 256 ∷ ipv6)

-- What follows the address: hostname, port, protocol and service name.
unfoldable pub service_part : BbEndianness → Service → Bytes
service_part machine sv =
    write_uint machine 2 (length sv.hostname % 2 ^ 16)
    ++ (sv.hostname
        ++ (write_uint machine 2 sv.port
            ++ (protocol_code sv.protocol
                ∷ (write_uint machine 2 (length sv.service % 2 ^ 16) ++ sv.service))))

-- The address of the interface that reaches the sender, for a service with none of its own. On
-- the two early `continue`s only the "S" has been appended.
local_section : BbEndianness → Service → LocalIp → Answer → Option Answer
local_section machine sv missing a = some (record a { body = a.body ++ b'S' ∷ [] })
local_section machine sv thrown a = none
local_section machine sv (found ipv4 ipv6) a =
    if ltb 39 (length ipv6)
    then some (record a { body = a.body ++ b'S' ∷ [] })
    else some (record {
      body = a.body ++ (b'S' ∷ (address_part machine ipv4 ipv6 ++ service_part machine sv));
      count = (a.count + 1) % 2 ^ 8;
    })

-- The body of the loop for a service that answers the query. `none` is an exception that leaves.
unfoldable pub append_service : BbEndianness → LocalIp → Service → Answer → Option Answer
unfolding local_section
append_service machine local sv a =
    if sv.ipv4 == 0
    then local_section machine sv local a
    else some (record {
      body = a.body ++ (b'S' ∷ (address_part machine sv.ipv4 sv.ipv6 ++ service_part machine sv));
      count = (a.count + 1) % 2 ^ 8;
    })

bind : Option Answer → (Answer → Option Answer) → Option Answer
bind none f = none
bind (some a) f = f a

-- The loop for a query with no filter.
unfoldable pub answer_all : BbEndianness → LocalIp → List Service → Answer → Option Answer
unfolding bind
answer_all machine local [] a = some a
answer_all machine local (sv ∷ svs) a =
    bind (append_service machine local sv a) (λ a'. answer_all machine local svs a')

-- The loop for a query with one: `filter.compare(0, filter.length(), service) == 0` compares the
-- whole of both texts.
unfoldable pub answer_filtered :
    BbEndianness → LocalIp → Bytes → List Service → Answer → Option Answer
unfolding bind
answer_filtered machine local filter [] a = some a
answer_filtered machine local filter (sv ∷ svs) a =
    bind (if equal filter sv.service then append_service machine local sv a else some a)
      (λ a'. answer_filtered machine local filter svs a')

-- The response message; `msglen` is a uint16_t.
unfoldable pub response_message : BbEndianness → Answer → Bytes
response_message machine a =
    signature
    ++ (write_uint machine 2 ((1 + (length a.body + 1)) % 2 ^ 16)
        ++ (message_code response ∷ a.count ∷ a.body))

-- One query section: none here, or its filter and where the next one starts. The protocol is
-- read, and not used.
pub data QuerySection : Type 0 where
  invalid : QuerySection
  query : Bytes → ℕ → QuerySection

unfoldable pub parse_query : Bytes → ℕ → Scan QuerySection
parse_query buffer i₀ = do
  tag ← read8 buffer i₀
  if not (tag == b'Q') then ok invalid else do
    let i₁ = i₀ + 1
    prot ← read8 buffer i₁
    let i₂ = i₁ + 1
    qlen ← read8 buffer i₂
    let i₃ = i₂ + 1
    if qlen == 0
        then ok (query [] i₃)
        else do filter ← read_bytes buffer i₃ qlen; ok (query filter (i₃ + qlen))

-- The messages sent for a datagram; or the thread has died by an exception, or has read outside
-- its buffer, after those.
pub data Handled : Type 0 where
  done : List Bytes → Handled
  terminated : List Bytes → Handled
  crashed : List Bytes → Handled

abbrev pub messages_sent : Handled → List Bytes
messages_sent (done ms) = ms
messages_sent (terminated ms) = ms
messages_sent (crashed ms) = ms

unfoldable pub answer_query : BbEndianness → LocalIp → List Service → Bytes → Option Answer
answer_query machine local services [] = answer_all machine local services no_answer
answer_query machine local services (c ∷ cs) =
    answer_filtered machine local (c ∷ cs) services no_answer

respond : BbEndianness → Option Answer → List Bytes → (List Bytes → Handled) → Handled
respond machine none sent next = terminated sent
respond machine (some a) sent next = next (sent ++ response_message machine a ∷ [])

after_query :
    BbEndianness
    → LocalIp
    → List Service
    → ℕ
    → List Bytes
    → (ℕ → List Bytes → Handled)
    → Scan QuerySection
    → Handled
unfolding respond
after_query machine local services i sent next (ok invalid) = next i sent
after_query machine local services i sent next (ok (query filter j)) =
    respond machine (answer_query machine local services filter) sent (next j)
after_query machine local services i sent next refused = next i sent
after_query machine local services i sent next fault = crashed sent

-- `for (int i = 0; i < rnum; ++i)`
unfoldable pub handle_queries :
    BbEndianness → LocalIp → List Service → Bytes → ℕ → ℕ → List Bytes → Handled
unfolding after_query
handle_queries machine local services buffer zero index sent = done sent
handle_queries machine local services buffer (suc rounds) index sent =
    after_query machine local services index sent
      (λ i sent'. handle_queries machine local services buffer rounds i sent')
      (parse_query buffer index)

-- The checks before the query sections: their number, and where they start.
unfoldable pub parse_broadcast : BbEndianness → Bytes → ℕ → Scan (ℕ × ℕ)
parse_broadcast machine buffer n = do
  require (not (ltb n 10))
  sig ← read_bytes buffer 0 6
  require (equal sig signature)
  len ← read_uint machine 2 buffer 6
  require (n - 8 == len)
  type ← read8 buffer 8
  require (type == message_code broadcast)
  rnum ← read8 buffer 9
  require (not (rnum == 0))
  ok (rnum, 10)

after_broadcast : BbEndianness → LocalIp → List Service → Bytes → Scan (ℕ × ℕ) → Handled
after_broadcast machine local services buffer (ok (rnum, i)) =
    handle_queries machine local services buffer rnum i []
after_broadcast machine local services buffer refused = done []
after_broadcast machine local services buffer fault = crashed []

-- `char buffer[2048]`
abbrev pub receive_size : ℕ
receive_size = 2048

-- What `receiveFrom(buffer, sizeof(buffer), client)` puts into the buffer of a datagram that
-- arrives: its first 2048 bytes. It returns their number; the system's receive call drops the rest.
unfoldable pub received_bytes : Bytes → Bytes
received_bytes m = take receive_size m

-- A round of the listening loop that received `n` bytes into `buffer`.
unfoldable pub handle_datagram : BbEndianness → LocalIp → List Service → Bytes → ℕ → Handled
unfolding after_broadcast
handle_datagram machine local services buffer n =
    after_broadcast machine local services buffer (parse_broadcast machine buffer n)

-- The same, with `remoteToLocalIP` called for the sender: `uninit` is what the variable `ipv4`
-- of the loop holds before it is set.
unfoldable pub client_handler :
    BbEndianness → List (List Address) → SocketAddress → ℕ → List Service → Bytes → ℕ → Handled
client_handler machine interfaces sender uninit services buffer n =
    handle_datagram machine (remote_to_local_ip machine interfaces sender uninit []) services buffer
      n
