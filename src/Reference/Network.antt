-- ===== src/Reference/Network.antt =====
-- What the reference client prints for the reference server, found at its address on the network.
use nyan_sd.Base.{
  ℕ, ◌^◌, ◌<◌, ◌≤◌, ◌≡◌, refl, sym, ap, ◌∙◌, subst, some, List, [], ◌∷◌, ◌++◌, reverse, arith,
  length, All, text, Bytes, IsByte,
}
use nyan_sd.ByteBauble.{BbEndianness, bb_le, bb_be, of_le, load, store}
use nyan_sd.ByteBauble.Order.{le_bytes-of_le}
use nyan_sd.Nyansd.{Service}
use nyan_sd.Nyansd.Ipv4.{ipv4_uint_to_string, dotted}
use nyan_sd.Nyansd.LocalIp.Found.{FirstOnNetwork}
use nyan_sd.Nyansd.LocalIp.Origin.{IsWithout, before_last-IsWithout}
use nyan_sd.Nyansd.SendQuery.{query_message}
use nyan_sd.Nyansd.Handler.Thread.Answered.{client_at, IsOrdinary}
use nyan_sd.Nyansd.Discovery.{working, arrivals, CanAnswer}
use nyan_sd.Nyansd.Discovery.Threads.{Peer, IsElse, IsServing, heard_from, server_of}
use nyan_sd.Nyansd.Discovery.Threads.Served.{heard_from-all_replies}
use nyan_sd.Client.{query_all, client_main}
use nyan_sd.Client.Session.{FitsBroadcast-query_all}
use nyan_sd.Server.{server_main}
use nyan_sd.Server.Registered.{documentation_ipv6, server_main_lem}
use nyan_sd.Reference.{three_services, reference_server, CanAnswer-reference}
use nyan_sd.Reference.Session.{line, shown_42, client_main-reference_server}

-- The text that a client shows for an address that a server has in its memory.
abbrev pub shown : BbEndianness → BbEndianness → ℕ → ℕ → ℕ → ℕ → Bytes
shown bb_le bb_le a b c d = dotted (a ∷ b ∷ c ∷ d ∷ [])
shown bb_be bb_be a b c d = dotted (a ∷ b ∷ c ∷ d ∷ [])
shown bb_le bb_be a b c d = dotted (d ∷ c ∷ b ∷ a ∷ [])
shown bb_be bb_le a b c d = dotted (d ∷ c ∷ b ∷ a ∷ [])

-- The server runs on a machine whose interface on the client's network has the address with these
-- octets, and meets the client's query among other rounds.
pub record IsReference (net host host_name octets : Bytes) (p : Peer) : Type 0 where
  pub registered : server_main p.machine host_name ≡ some p.services
  pub address : p.address ≡ load p.machine octets
  pub on_network : FirstOnNetwork (net ++ b'.' ∷ []) (dotted octets) p.interfaces
  pub before_ordinary : All (IsOrdinary p.machine p.interfaces) p.before
  pub after_ordinary : All (IsOrdinary p.machine p.interfaces) p.after
  pub before_else : All (IsElse (client_at net host)) p.before
  pub after_else : All (IsElse (client_at net host)) p.after

some-cancel : {xs ys : List Service} → some xs ≡ some ys → xs ≡ ys
some-cancel h = ground (arith, h)

module _ (a b c d : ℕ) (bytes : All IsByte (a ∷ b ∷ c ∷ d ∷ [])) where
  load-fits : (machine : BbEndianness) → load machine (a ∷ b ∷ c ∷ d ∷ []) < 256 ^ 4
  unfolding load of_le
  load-fits bb_le = omega (arith, bytes)
  load-fits bb_be = omega (arith, bytes)

  back : All IsByte (d ∷ c ∷ b ∷ a ∷ [])
  back = let (ha, (hb, (hc, (hd, _)))) = bytes in (hd, (hc, (hb, (ha, tt))))

  shown_lem :
      (client server : BbEndianness)
      → ipv4_uint_to_string client (load server (a ∷ b ∷ c ∷ d ∷ [])) ≡ shown client server a b c d
  unfolding ipv4_uint_to_string store load
  shown_lem bb_le bb_le = ap dotted (le_bytes-of_le (a ∷ b ∷ c ∷ d ∷ []) bytes)
  shown_lem bb_le bb_be = ap dotted (le_bytes-of_le (d ∷ c ∷ b ∷ a ∷ []) back)
  shown_lem bb_be bb_be = ap (λ bs. dotted (reverse bs)) (le_bytes-of_le (d ∷ c ∷ b ∷ a ∷ []) back)
  shown_lem bb_be bb_le = ap (λ bs. dotted (reverse bs)) (le_bytes-of_le (a ∷ b ∷ c ∷ d ∷ []) bytes)

  server_of-IsReference :
      (net host host_name : Bytes) (p : Peer)
      → IsReference net host host_name (a ∷ b ∷ c ∷ d ∷ []) p
      → server_of p ≡ reference_server p.machine host_name p.address p.junk
  server_of-IsReference net host host_name p r =
      let same : p.services ≡ three_services p.machine host_name 0 =
        some-cancel (sym r.registered ∙ server_main_lem p.machine host_name) in
      ap (λ svs. server_of (record p { services = svs })) same

  IsServing-IsReference :
      (net host host_name : Bytes) (p : Peer)
      → length host_name ≤ 255
      → IsReference net host host_name (a ∷ b ∷ c ∷ d ∷ []) p
      → IsServing net host (query_all ∷ []) p
  IsServing-IsReference net host host_name p short r = record {
    address_fits = fits;
    on_network =
        subst (λ t. FirstOnNetwork (net ++ b'.' ∷ []) t p.interfaces) (sym own) r.on_network;
    can_answer =
        subst (CanAnswer (query_all ∷ [])) (sym (server_of-IsReference net host host_name p r))
          (CanAnswer-reference p.machine host_name p.address short fits p.junk);
    before_ordinary = r.before_ordinary;
    after_ordinary = r.after_ordinary;
    before_else = r.before_else;
    after_else = r.after_else;
  }
    where
      fits : p.address < 256 ^ 4
      fits = subst (λ v. v < 256 ^ 4) (sym r.address) (load-fits p.machine)

      own : ipv4_uint_to_string p.machine p.address ≡ dotted (a ∷ b ∷ c ∷ d ∷ [])
      own =
          ap (ipv4_uint_to_string p.machine) r.address
          ∙ shown_lem p.machine p.machine
          ∙ alike p.machine
        where
          alike : (m : BbEndianness) → shown m m a b c d ≡ dotted (a ∷ b ∷ c ∷ d ∷ [])
          alike bb_le = refl
          alike bb_be = refl

  -- The reference client, on a machine with one working interface, hears the reference server on a
  -- host whose name has at most 255 bytes, of which the first interface with an address on the
  -- client's network has the IPv4 address a.b.c.d: what the thread of the server's `main` sends to
  -- the client, among other rounds, comes back. The client prints three lines, for HelloService
  -- with a.b.c.d and no IPv6 text, and for SSLService and HTTPService with 192.168.0.42 and the
  -- same IPv6 text. If the machines are of different byte order, each of these addresses is printed
  -- back to front, as d.c.b.a and 42.0.168.192.
  pub client_main-server_main :
      (client : BbEndianness) (net host host_name ip junk : Bytes) (p : Peer)
      → length host_name ≤ 255
      → IsWithout b'.' host
      → IsReference net host host_name (a ∷ b ∷ c ∷ d ∷ []) p
      → let payload = query_message client (query_all ∷ []) in
        let back = arrivals junk (heard_from (client_at net host) payload (p ∷ [])) in
        client_main client (working ip back ∷ [])
        ≡ some (
            line (text "HelloService") host_name (shown client p.machine a b c d) [] (text "11310")
            ∷ line
                (text "SSLService")
                host_name
                (shown_42 client p.machine)
                documentation_ipv6
                (text "22")
            ∷ line
                (text "HTTPService")
                host_name
                (shown_42 client p.machine)
                documentation_ipv6
                (text "80")
            ∷ [])
  client_main-server_main client net host host_name ip junk p short no_dot r =
      let s = IsServing-IsReference net host host_name p short r in
      let heard =
        heard_from-all_replies client net host (query_all ∷ []) (p ∷ [])
          (before_last-IsWithout b'.' host no_dot) FitsBroadcast-query_all (s, tt) in
      let text_of : ipv4_uint_to_string client p.address ≡ shown client p.machine a b c d =
        ap (ipv4_uint_to_string client) r.address ∙ shown_lem client p.machine in
      let run =
        client_main-reference_server client p.machine host_name ip junk p.junk p.address short
          s.address_fits in
      rw (heard, server_of-IsReference net host host_name p r) (rw text_of at run)
