-- ===== src/Daemon/Configured.antt =====
-- Service files that say what they must are all served.
use nyan_sd.Base.{
  ℕ, ◌^◌, ◌<◌, ◌≡◌, ◌≢◌, refl, sym, ap, ◌∙◌, ◌⊎◌, inl, inr, true, false, ◌&&◌, some, List, [], ◌∷◌,
  ◌++◌, append-nil, append_assoc, arith, ◌==◌, equal, equal_refl, text, Bytes,
}
use nyan_sd.ByteBauble.{BbEndianness}
use nyan_sd.Nyansd.{Protocol, all, tcp, udp, Service}
use nyan_sd.Nyansd.Ipv4.{ipv4_string_to_uint, ipv4_uint_to_string}
use nyan_sd.Nyansd.Ipv4.RoundTrip.{ipv4_string_to_uint-ipv4_uint_to_string}
use nyan_sd.Nyansd.Registry.{empty, add_service}
use nyan_sd.Daemon.{
  positive, to_uint16, IniReader, DirectoryEntry, named_protocol, loaded, configured_ipv4,
  load_section, load_sections, load_entry, load_entries, serving, daemon_main, daemon_run,
  with_address, with_protocol, after_load, section_service,
}

abbrev pub protocol_name : Protocol → Bytes
protocol_name all = text "all"
protocol_name tcp = text "tcp"
protocol_name udp = text "udp"

-- The address is left out, or is in the form that the library writes.
abbrev pub GivesAddress : BbEndianness → Bytes → ℕ → Type 0
GivesAddress machine given ipv4 =
    ((given ≡ []) × (ipv4 ≡ 0)) ⊎ ((given ≡ ipv4_uint_to_string machine ipv4) × (given ≢ []))

-- The section of a file that describes a service. A port is a number from 1 to 65535.
pub record Describes (machine : BbEndianness) (ini : IniReader) (section : Bytes) (sv : Service)
    : Type 0 where
  pub name : ini.get section (text "name") [] ≡ sv.service
  pub name_set : sv.service ≢ []
  pub port : ini.get_integer section (text "port") (positive 0) ≡ positive sv.port
  pub port_set : sv.port ≢ 0
  pub port_fits : sv.port < 2 ^ 16
  pub protocol : ini.get section (text "protocol") [] ≡ protocol_name sv.protocol
  pub host : ini.get section (text "host") [] ≡ sv.hostname
  pub host_set : sv.hostname ≢ []
  pub ipv4 : GivesAddress machine (ini.get section (text "ipv4") []) sv.ipv4
  pub ipv4_fits : sv.ipv4 < 256 ^ 4
  pub ipv6 : ini.get section (text "ipv6") [] ≡ sv.ipv6

-- Section by section.
abbrev pub DescribesAll : BbEndianness → IniReader → List Bytes → List Service → Type 0
DescribesAll machine ini [] [] = Unit
DescribesAll machine ini [] (sv ∷ svs) = ⊥
DescribesAll machine ini (s ∷ ss) [] = ⊥
DescribesAll machine ini (s ∷ ss) (sv ∷ svs) =
    Describes machine ini s sv × DescribesAll machine ini ss svs

empty-ne-nil : (s : Bytes) → s ≢ [] → empty s ≡ false
empty-ne-nil [] h = absurd (h refl)
empty-ne-nil (b ∷ bs) h = refl

named_protocol-protocol_name : (p : Protocol) → named_protocol (protocol_name p) ≡ some p
unfolding named_protocol equal
named_protocol-protocol_name all = refl
named_protocol-protocol_name tcp = refl
named_protocol-protocol_name udp = refl

configured_ipv4-GivesAddress :
    (machine : BbEndianness) (given : Bytes) (ipv4 : ℕ)
    → ipv4 < 256 ^ 4
    → GivesAddress machine given ipv4
    → configured_ipv4 (ipv4_string_to_uint machine) given ≡ some ipv4
unfolding configured_ipv4
configured_ipv4-GivesAddress machine [] ipv4 fits (inl (e, z)) = ap some (sym z)
configured_ipv4-GivesAddress machine (c ∷ cs) ipv4 fits (inl (e, z)) = absurd (cc e)
configured_ipv4-GivesAddress machine [] ipv4 fits (inr (e, ne)) = absurd (ne refl)
configured_ipv4-GivesAddress machine (c ∷ cs) ipv4 fits (inr (e, ne)) =
    ap (ipv4_string_to_uint machine) e ∙ ipv4_string_to_uint-ipv4_uint_to_string machine ipv4 fits

section_service-Describes :
    (machine : BbEndianness) (ini : IniReader) (section : Bytes) (sv : Service)
    → Describes machine ini section sv
    → record (section_service ini section (ini.get section (text "name") []) sv.protocol) {
      ipv4 = sv.ipv4;
    }
      ≡ sv
section_service-Describes machine ini section sv d = λ i. record {
  ipv4 = sv.ipv4;
  ipv6 = d.ipv6 i;
  port = port_eq i;
  hostname = d.host i;
  service = d.name i;
  protocol = sv.protocol;
}
  where
    port_eq : to_uint16 (ini.get_integer section (text "port") (positive 0)) ≡ sv.port
    port_eq = ap to_uint16 d.port ∙ omega (arith, d.port_fits)

add_service-given :
    (host_name : Bytes) (sv : Service) (svs : List Service)
    → sv.port ≢ 0
    → sv.service ≢ []
    → sv.hostname ≢ []
    → add_service host_name sv svs ≡ (true, svs ++ sv ∷ [])
unfolding add_service
add_service-given host_name sv svs p n h =
    rw (port, empty-ne-nil sv.service n, empty-ne-nil sv.hostname h)
  where
    port : (sv.port == 0) ≡ false
    port = ground arith

load_section-Describes :
    (machine : BbEndianness) (host_name : Bytes) (ini : IniReader) (section : Bytes) (sv : Service)
    (svs : List Service)
    → Describes machine ini section sv
    → load_section (ipv4_string_to_uint machine) host_name ini section svs ≡ loaded (svs ++ sv ∷ [])
unfolding load_section
load_section-Describes machine host_name ini section sv svs d = rw (
  ap empty d.name ∙ empty-ne-nil sv.service d.name_set,
  ap named_protocol d.protocol ∙ named_protocol-protocol_name sv.protocol,
  with_protocol,
  configured_ipv4-GivesAddress machine _ sv.ipv4 d.ipv4_fits d.ipv4,
  with_address,
  section_service-Describes machine ini section sv d,
  add_service-given host_name sv svs d.port_set d.name_set d.host_set,
)

load_sections-DescribesAll :
    (machine : BbEndianness) (host_name : Bytes) (ini : IniReader) (sections : List Bytes)
    (given svs : List Service)
    → DescribesAll machine ini sections given
    → load_sections (ipv4_string_to_uint machine) host_name ini sections svs ≡ loaded (svs ++ given)
unfolding load_sections
load_sections-DescribesAll machine host_name ini [] [] svs d = rw append-nil
load_sections-DescribesAll machine host_name ini [] (sv ∷ given) svs d = absurd d
load_sections-DescribesAll machine host_name ini (s ∷ ss) [] svs d = absurd d
load_sections-DescribesAll machine host_name ini (s ∷ ss) (sv ∷ given) svs (d, ds) =
    rw (load_section-Describes machine host_name ini s sv svs d, after_load)
      (load_sections-DescribesAll machine host_name ini ss given (svs ++ sv ∷ []) ds
        ∙ ap loaded (append_assoc svs (sv ∷ []) given))

-- A readable service file whose sections describe some services.
pub record IsServiceFile (machine : BbEndianness) (entry : DirectoryEntry) (given : List Service)
    : Type 0 where
  pub regular : entry.is_regular_file ≡ true
  pub suffix : entry.extension ≡ text ".service"
  pub readable : entry.reader.parse_failed ≡ false
  pub sections : DescribesAll machine entry.reader entry.reader.section_names given

-- Each entry of the folder is such a file, or is no service file at all and gives no service.
abbrev pub FolderGives : BbEndianness → List DirectoryEntry → List (List Service) → Type 0
FolderGives machine [] [] = Unit
FolderGives machine [] (g ∷ gs) = ⊥
FolderGives machine (e ∷ es) [] = ⊥
FolderGives machine (e ∷ es) (g ∷ gs) =
    (IsServiceFile machine e g
      ⊎ (((e.is_regular_file && equal e.extension (text ".service")) ≡ false) × (g ≡ [])))
    × FolderGives machine es gs

unfoldable pub concat : List (List Service) → List Service
concat [] = []
concat (g ∷ gs) = g ++ concat gs

load_entry-IsServiceFile :
    (machine : BbEndianness) (host_name : Bytes) (entry : DirectoryEntry) (given svs : List Service)
    → IsServiceFile machine entry given
    → load_entry (ipv4_string_to_uint machine) host_name entry svs ≡ loaded (svs ++ given)
unfolding load_entry
load_entry-IsServiceFile machine host_name entry given svs f =
    simp (f.regular, f.suffix, equal_refl (text ".service"), f.readable)
      (load_sections-DescribesAll machine host_name entry.reader _ given svs f.sections)

load_entries-FolderGives :
    (machine : BbEndianness) (host_name : Bytes) (entries : List DirectoryEntry)
    (given : List (List Service)) (svs : List Service)
    → FolderGives machine entries given
    → load_entries (ipv4_string_to_uint machine) host_name entries svs
      ≡ loaded (svs ++ concat given)
unfolding load_entries concat
load_entries-FolderGives machine host_name [] [] svs f = rw append-nil
load_entries-FolderGives machine host_name [] (g ∷ gs) svs f = absurd f
load_entries-FolderGives machine host_name (e ∷ es) [] svs f = absurd f
load_entries-FolderGives machine host_name (e ∷ es) (g ∷ gs) svs (inl f, fs) =
    rw (load_entry-IsServiceFile machine host_name e g svs f, after_load)
      (load_entries-FolderGives machine host_name es gs (svs ++ g) fs
        ∙ ap loaded (append_assoc svs g (concat gs)))
load_entries-FolderGives machine host_name (e ∷ es) (g ∷ gs) svs (inr (other, none_given), fs) =
    rw (skipped, after_load)
      (load_entries-FolderGives machine host_name es gs svs fs
        ∙ ap (λ x. loaded (svs ++ (x ++ concat gs))) (sym none_given))
  where
    skipped : load_entry (ipv4_string_to_uint machine) host_name e svs ≡ loaded svs
    skipped = unfold load_entry in simp other

-- When every service file of the folder can be read, and each of its sections describes a
-- service in full, the daemon serves exactly these services, in the order of the files and their
-- sections; entries that are no service files do not count. An address is left out or in the
-- library's own form, and a port is a number from 1 to 65535.
pub daemon_main-FolderGives :
    (machine : BbEndianness) (host_name : Bytes) (entries : List DirectoryEntry)
    (given : List (List Service))
    → FolderGives machine entries given
    → daemon_main machine host_name (some entries) ≡ serving (concat given)
unfolding daemon_main daemon_run
daemon_main-FolderGives machine host_name entries given f =
    rw (load_entries-FolderGives machine host_name entries given [] f)
