-- ===== src/Client/Session.antt =====
-- A whole run of the reference client.
use nyan_sd.Base.{ap, ◌≡◌, ◌∙◌, append-nil, map, some, List, [], ◌∷◌, All, arith, Bytes}
use nyan_sd.ByteBauble.{BbEndianness}
use nyan_sd.Nyansd.SendQuery.{query_message, query_sections, query_section}
use nyan_sd.Nyansd.Response.Datagram.{concat}
use nyan_sd.Nyansd.Handler.Queries.{FitsBroadcast}
use nyan_sd.Nyansd.Discovery.{Server, working, arrivals, all_replies, announcements, CanAnswer}
use nyan_sd.Nyansd.Discovery.Links.{
  Link, up, Works, interface_of, link_announcements, send_query-links,
}
use nyan_sd.Client.{filter_duplicates, describe_all, query_all, print_responses, client_main}

-- The client's one query fits its message.
pub FitsBroadcast-query_all : FitsBroadcast (query_all ∷ [])
unfolding query_sections query_section
FitsBroadcast-query_all = record {
  some_query = omega arith;
  count_fits = omega arith;
  each_fits = (omega arith, tt);
  length_fits = omega arith;
}

-- On any interfaces of which some work, and when what comes back on these are the responses of the
-- servers behind them, the client prints a line for each service that is announced for a query for
-- all services: by interface, server and registration, and none for a service that it has printed,
-- such as one that is announced on two interfaces. The responses fit the receive buffers.
pub client_main-links :
    (machine : BbEndianness) (links : List Link)
    → All (Works (query_all ∷ [])) links
    → client_main machine (map (interface_of (query_message machine (query_all ∷ []))) links)
      ≡ some (
          describe_all machine
            (filter_duplicates [] (concat (link_announcements links (query_all ∷ [])))))
unfolding client_main print_responses
client_main-links machine links h =
    ap (λ r. print_responses machine r.1)
      (send_query-links machine 11310 (query_all ∷ []) links [] FitsBroadcast-query_all h)

-- The same on a machine with one interface, which works.
pub client_main-announcements :
    (machine : BbEndianness) (ss : List Server) (ip junk : Bytes)
    → All (CanAnswer (query_all ∷ [])) ss
    → client_main machine
        (working ip (arrivals junk (all_replies ss (query_message machine (query_all ∷ [])))) ∷ [])
      ≡ some
          (describe_all machine (filter_duplicates [] (concat (announcements ss (query_all ∷ [])))))
unfolding link_announcements
client_main-announcements machine ss ip junk h =
    client_main-links machine (up ip junk ss ∷ []) (h, tt)
    ∙ ap (λ svss. some (describe_all machine (filter_duplicates [] (concat svss))))
        (append-nil (announcements ss (query_all ∷ [])))
