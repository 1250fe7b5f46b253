-- ===== src/Browse/Session.antt =====
-- A whole run of the browser.
use nyan_sd.Base.{ap, ◌≡◌, ◌∙◌, append-nil, map, true, false, List, [], ◌∷◌, All, arith, Bytes}
use nyan_sd.ByteBauble.{BbEndianness}
use nyan_sd.Nyansd.SendQuery.{query_message, query_sections, query_section, broadcast_address}
use nyan_sd.Nyansd.Response.Datagram.{concat}
use nyan_sd.Nyansd.Handler.Queries.{FitsBroadcast}
use nyan_sd.Nyansd.Discovery.{Server, working, arrivals, all_replies, announcements, CanAnswer}
use nyan_sd.Nyansd.Discovery.Links.{
  Link, up, Works, interface_of, broadcasts, link_announcements, send_query-links,
}
use nyan_sd.Browse.{describe_all, exit, print_responses, browse_query, browse_main}

FitsBroadcast-browse_query : FitsBroadcast (browse_query ∷ [])
unfolding browse_query query_sections query_section
FitsBroadcast-browse_query = record {
  some_query = omega arith;
  count_fits = omega arith;
  each_fits = (omega arith, tt);
  length_fits = omega arith;
}

-- When the arguments parse and do not ask for help, on any interfaces of which some work, and when
-- what comes back on these are the responses of the servers behind them, the browser sends its
-- query for all services once on each that works, and prints a line for each service that is
-- announced for it, by interface, server and registration. It exits with 0. The responses fit the
-- receive buffers.
pub browse_main-links :
    (machine : BbEndianness) (links : List Link)
    → All (Works (browse_query ∷ [])) links
    → let payload = query_message machine (browse_query ∷ []) in
      browse_main machine
        (record { parsed = true; help = false })
        (map (interface_of payload) links)
      ≡ exit 0
          (broadcasts 11310 payload links)
          (describe_all machine (concat (link_announcements links (browse_query ∷ []))))
unfolding browse_main print_responses
browse_main-links machine links h =
    ap (print_responses machine)
      (send_query-links machine 11310 (browse_query ∷ []) links [] FitsBroadcast-browse_query h)

-- The same on a machine with one interface, which works.
pub browse_main-announcements :
    (machine : BbEndianness) (ss : List Server) (ip junk : Bytes)
    → All (CanAnswer (browse_query ∷ [])) ss
    → let payload = query_message machine (browse_query ∷ []) in
      browse_main machine
        (record { parsed = true; help = false })
        (working ip (arrivals junk (all_replies ss payload)) ∷ [])
      ≡ exit 0
          (record { to_address = broadcast_address ip; to_port = 11310; payload = payload } ∷ [])
          (describe_all machine (concat (announcements ss (browse_query ∷ []))))
unfolding broadcasts link_announcements
browse_main-announcements machine ss ip junk h =
    let links : List Link = up ip junk ss ∷ [] in
    let payload = query_message machine (browse_query ∷ []) in
    browse_main-links machine links (h, tt)
    ∙ ap (λ svss. exit 0 (broadcasts 11310 payload links) (describe_all machine (concat svss)))
        (append-nil (announcements ss (browse_query ∷ [])))
