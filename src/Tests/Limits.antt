-- ===== src/Tests/Limits.antt =====
-- What the handler reads of its buffer, and responses that are too long for the client.
use nyan_sd.Base.{
  true, List, ◌≢◌, ◌<◌, ◌≡◌, refl, false, [], ◌∷◌, ◌++◌, All, All-append, length, arith, text,
  equal, Bytes, IsByte,
}
use nyan_sd.ByteBauble.{bb_le, le_bytes}
use nyan_sd.Nyansd.{all, Query, Service, signature}
use nyan_sd.Nyansd.SendQuery.{
  query_message, query_section, query_sections, broadcast_address, send_query,
}
use nyan_sd.Nyansd.Response.{returned, buffer_size}
use nyan_sd.Nyansd.Response.Message.{message, message_with}
use nyan_sd.Nyansd.Response.Section.{section, section_list}
use nyan_sd.Nyansd.Response.Datagram.{concat}
use nyan_sd.Nyansd.Handler.Answers.{matching, localize}
use nyan_sd.Nyansd.Handler.Announced.{announced, FitsServer}
use nyan_sd.Nyansd.Handler.Queries.{FitsQuery}
use nyan_sd.Nyansd.Handler.{receive_size}
use nyan_sd.Nyansd.Discovery.{Server, all_replies, working}
use nyan_sd.Nyansd.Discovery.Truncated.{cut_arrivals, heard, send_query-truncated}
use nyan_sd.Nyansd.LocalIp.{before_last}
use nyan_sd.Nyansd.Handler.Thread.{
  Event, silent, poll_failed, datagram, ThreadEnd, listening_thread,
}
use nyan_sd.Nyansd.Handler.Thread.Answered.{client_at, other, addressed, replies_in}
use nyan_sd.Nyansd.Handler.Thread.Inside.{
  answers, listening_thread-inside, listening_thread-overread,
}
use nyan_sd.Tests.Data.{
  interfaces, on_network, repeated-IsByte, hello, local, services, for_all, for_web, queries, alpha,
  FitsServer-services, FitsBroadcast-queries, CanAnswer-alpha, strange, strange_bytes, repeated,
}

-- The 2048 bytes of a buffer with that datagram in front.
abbrev full_buffer : Bytes
full_buffer = strange ++ repeated 2034 0

-- The sender is 192.168.0.7, port 11310.
abbrev few_queries : List Event
few_queries =
    silent
    ∷ datagram (client_at (text "192.168.0") (text "7:11310")) services 99 full_buffer 14
    ∷ poll_failed
    ∷ []

inside_example :
    (listening_thread bb_le interfaces (λ to m. true) true few_queries).1 ≢ ThreadEnd.crashed
inside_example =
    listening_thread-inside bb_le interfaces (λ to m. true) true few_queries
      (
        tt,
        (
          (
            All-append IsByte strange (repeated 2034 0) strange_bytes
                (repeated-IsByte 2034 0 (omega arith)),
            refl,
            omega arith,
          ),
          (tt, tt),
        ),
      )

-- Eight queries with filters of 255 bytes do not fit the buffer.
abbrev wide : Query
wide = record { protocol = all; filter = repeated 255 b'x' }

abbrev wide_buffer : Bytes
wide_buffer =
    signature
    ++ (le_bytes 2 2040
        ++ (1 ∷ 8 ∷ (query_sections (repeated 7 wide) ++ (b'Q' ∷ 0 ∷ 255 ∷ repeated 229 b'x'))))

wide_buffer_size : length wide_buffer ≡ receive_size
unfolding le_bytes query_sections query_section
wide_buffer_size = refl

wide_fits : All FitsQuery (repeated 7 wide)
wide_fits = (
  omega arith,
  (omega arith, (omega arith, (omega arith, (omega arith, (omega arith, (omega arith, tt)))))),
)

overread_example :
    listening_thread bb_le interfaces
      (λ to m. true)
      true
      (silent
        ∷ datagram (client_at (text "192.168.0") (text "7:11310")) services 99 wide_buffer 2048
        ∷ [])
    ≡ (
      addressed
          (client_at (text "192.168.0") (text "7:11310"))
          (answers 0x0500A8C0 services (repeated 7 wide)),
      ThreadEnd.crashed,
    )
unfolding replies_in
overread_example =
    listening_thread-overread bb_le interfaces (λ to m. true) (other silent ∷ []) (text "192.168.0")
      (text "7:11310") 0x0500A8C0 99 services (repeated 7 wide) wide_buffer 2048 8 255
      (repeated 229 b'x') [] (tt, tt) (omega arith) (unfold before_last in refl) on_network
      FitsServer-services wide_fits (0, refl) wide_buffer_size (omega arith) (omega arith)
      (omega arith) (omega arith) tt (refl, (refl, (refl, (refl, (refl, (refl, (refl, tt)))))))

-- A service whose name alone is longer than a client's buffer.
abbrev verbose : Service
verbose = record hello { service = repeated 2100 b'x' }

abbrev loud : Server
loud = record { machine = bb_le; local = local; services = verbose ∷ []; leftover = [] }

FitsServer-verbose : FitsServer local (verbose ∷ [])
unfolding section_list section localize le_bytes
FitsServer-verbose = record {
  ready = (
    (
      record {
        ipv4_fits = omega arith;
        ipv6_fits = omega arith;
        port_fits = omega arith;
        hostname_fits = omega arith;
        service_fits = omega arith;
      },
      omega arith,
    ),
    tt,
  );
  count_fits = omega arith;
  length_fits = omega arith;
}

says_too_much : buffer_size < length (message (announced local (verbose ∷ []) for_all))
unfolding message message_with section_list section localize le_bytes matching announced equal
says_too_much = omega arith

truncated_example :
    let payload = query_message bb_le queries in
    let back = cut_arrivals (text "old") (all_replies (alpha ∷ loud ∷ alpha ∷ []) payload) in
    send_query bb_le 11310 queries (working (text "192.168.0.9") back ∷ []) [] ≡ (
      record {
        to_address = broadcast_address (text "192.168.0.9");
        to_port = 11310;
        payload = payload;
      }
          ∷ [],
      returned false (concat (heard (alpha ∷ []) loud [] queries)),
    )
truncated_example =
    send_query-truncated bb_le (alpha ∷ []) loud (alpha ∷ []) [] for_all (for_web ∷ []) 11310
      (text "192.168.0.9") (text "old") [] FitsBroadcast-queries (CanAnswer-alpha, tt)
      FitsServer-verbose tt says_too_much
