-- ===== src/Nyansd/Registry.antt =====
-- src/nyansd.cpp: `addService`. The vector of services is the state; the host's name is what
-- `Poco::Net::DNS::hostName` reports.
use nyan_sd.Base.{
  ◌≡◌, ◌≢◌, refl, ◌⊎◌, inl, inr, Bool, true, false, ◌||◌, List, [], ◌∷◌, ◌++◌, ◌==◌, ==_iff,
  if◌then◌else◌, arith, All, All-append, Bool-cases, Bytes,
}
use nyan_sd.Nyansd.{Service}

abbrev pub empty : Bytes → Bool
empty [] = true
empty (b ∷ bs) = false

fill_hostname : Bytes → Service → Service
fill_hostname host_name service =
    if empty service.hostname then record service { hostname = host_name } else service

unfoldable pub add_service : Bytes → Service → List Service → Bool × List Service
unfolding fill_hostname
add_service host_name service services =
    if service.port == 0 || empty service.service
    then (false, services)
    else (true, services ++ fill_hostname host_name service ∷ [])

-- What every registered service has.
pub record IsComplete (sv : Service) : Type 0 where
  pub port_set : sv.port ≢ 0
  pub name_set : sv.service ≢ []
  pub hostname_set : sv.hostname ≢ []

empty→nil : (s : Bytes) → empty s ≡ true → s ≡ []
empty→nil [] h = refl
empty→nil (b ∷ bs) h = cc

nonempty : (s : Bytes) → empty s ≡ false → s ≢ []
nonempty [] h = λ e. cc
nonempty (b ∷ bs) h = λ e. cc

fill_hostname-IsComplete :
    (host_name : Bytes) (sv : Service)
    → host_name ≢ []
    → sv.port ≢ 0
    → sv.service ≢ []
    → IsComplete (fill_hostname host_name sv)
unfolding fill_hostname
fill_hostname-IsComplete host_name sv h p n = elim (Bool-cases (empty sv.hostname)) [
  | inl none_set ↦ rw none_set (record { port_set = p; name_set = n; hostname_set = h })
  | inr own ↦
      rw own (record { port_set = p; name_set = n; hostname_set = nonempty sv.hostname own })
]

-- On a host that has a name, `addService` accepts exactly the services with a port and a name.
-- One that it refuses leaves the registry alone; one that it accepts comes last, with all fields
-- as given but an empty hostname, for which the host's name is filled in. The registry stays one
-- of complete services.
pub add_service_lem :
    (host_name : Bytes) (sv : Service) (svs : List Service)
    → host_name ≢ []
    → All IsComplete svs
    → let (accepted, svs') = add_service host_name sv svs in
      All IsComplete svs'
      × (((accepted ≡ true)
            × (sv.port ≢ 0)
            × (sv.service ≢ [])
            × (svs'
                ≡ svs
                  ++ (if empty sv.hostname then record sv { hostname = host_name } else sv) ∷ []))
          ⊎ ((accepted ≡ false) × ((sv.port ≡ 0) ⊎ (sv.service ≡ [])) × (svs' ≡ svs)))
unfolding add_service
add_service_lem host_name sv svs h all = elim (Bool-cases (sv.port == 0)) [
  | inl no_port ↦ rw no_port (all, inr (refl, inl ((==_iff sv.port 0).0 no_port), refl))
  | inr port ↦ rw port (elim (Bool-cases (empty sv.service)) [
    | inl no_name ↦ rw no_name (all, inr (refl, inr (empty→nil sv.service no_name), refl))
    | inr name ↦
        let p : sv.port ≢ 0 = ground arith in
        let n : sv.service ≢ [] = nonempty sv.service name in
        rw name (
          All-append IsComplete svs (fill_hostname host_name sv ∷ []) all
              (fill_hostname-IsComplete host_name sv h p n, tt),
          inl (refl, p, n, refl),
        )
  ])
]
