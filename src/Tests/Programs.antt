-- ===== src/Tests/Programs.antt =====
-- The programs that stand around the library.
use nyan_sd.Base.{
  ◌≡◌, ◌≢◌, ◌↔◌, ◌⊎◌, if◌then◌else◌, some, inl, inr, refl, true, false, List, [], ◌∷◌, All, arith,
  equal, text,
}
use nyan_sd.ByteBauble.{bb_le}
use nyan_sd.Nyansd.{Service}
use nyan_sd.Nyansd.Registry.{IsComplete, add_service, add_service_lem}
use nyan_sd.Client.{filter_duplicates, is_duplicate, same_service}
use nyan_sd.Client.Unique.{Elem, Distinct, filter_duplicates-Distinct}
use nyan_sd.Daemon.{positive, IniReader, DirectoryEntry, serving, daemon_main}
use nyan_sd.Daemon.Files.{ServesComplete, daemon_main-ServesComplete}
use nyan_sd.Daemon.Configured.{Describes, FolderGives, concat, daemon_main-FolderGives}
use nyan_sd.Tests.Data.{hello, web}

unique_example :
    Distinct (filter_duplicates [] (hello ∷ web ∷ hello ∷ []))
    × ((x : Service)
        → Elem x (filter_duplicates [] (hello ∷ web ∷ hello ∷ []))
          ↔ (Elem x [] ⊎ Elem x (hello ∷ web ∷ hello ∷ [])))
unique_example = filter_duplicates-Distinct [] (hello ∷ web ∷ hello ∷ []) tt

duplicates_run : filter_duplicates [] (hello ∷ web ∷ hello ∷ []) ≡ hello ∷ web ∷ []
unfolding filter_duplicates is_duplicate same_service equal
duplicates_run = refl

-- One file with one section.
abbrev ini : IniReader
ini = record {
  parse_failed = false;
  section_names = text "web" ∷ [];
  get = λ section name default.
      if equal name (text "name")
      then text "Web"
      else if equal name (text "protocol")
      then text "udp"
      else if equal name (text "host")
      then text "alpha"
      else if equal name (text "ipv6")
      then text "fe80::1"
      else default;
  get_integer = λ section name default. if equal name (text "port") then positive 80 else default;
}

abbrev folder : List DirectoryEntry
folder =
    record { is_regular_file = true; extension = text ".service"; reader = ini }
    ∷ record { is_regular_file = true; extension = text ".txt"; reader = ini }
    ∷ []

abbrev described : Service
described = record web { ipv4 = 0 }

Describes-ini : Describes bb_le ini (text "web") described
unfolding equal
Describes-ini = record {
  name = refl;
  name_set = λ e. cc e;
  port = refl;
  port_set = λ e. ground arith;
  port_fits = omega arith;
  protocol = refl;
  host = refl;
  host_set = λ e. cc e;
  ipv4 = inl (refl, refl);
  ipv4_fits = omega arith;
  ipv6 = refl;
}

FolderGives-folder : FolderGives bb_le folder ((described ∷ []) ∷ [] ∷ [])
unfolding equal
FolderGives-folder = (
  inl (record { regular = refl; suffix = refl; readable = refl; sections = (Describes-ini, tt) }),
  (inr (refl, refl), tt),
)

folder_example : daemon_main bb_le (text "alpha") (some folder) ≡ serving (described ∷ [])
unfolding concat
folder_example =
    daemon_main-FolderGives bb_le (text "alpha") folder ((described ∷ []) ∷ [] ∷ [])
      FolderGives-folder

complete_example : ServesComplete (daemon_main bb_le (text "alpha") (some folder))
complete_example = daemon_main-ServesComplete bb_le (text "alpha") (λ e. cc e) (some folder)

add_service_example :
    let (accepted, svs) = add_service (text "alpha") described [] in
    All IsComplete svs
    × (((accepted ≡ true)
          × (described.port ≢ 0)
          × (described.service ≢ [])
          × (svs ≡ described ∷ []))
        ⊎ ((accepted ≡ false) × ((described.port ≡ 0) ⊎ (described.service ≡ [])) × (svs ≡ [])))
add_service_example = add_service_lem (text "alpha") described [] (λ e. cc e) tt
