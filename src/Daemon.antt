-- ===== src/Daemon.antt =====
-- daemon/nyansd_daemon.cpp: `main` where _WIN32 is not defined. A service file is what INIReader
-- answers about it; that reader is not part of the model.
pub mod Files
pub mod Configured
pub mod WindowsService
use nyan_sd.Base.{
  ℕ, ◌+◌, ◌-◌, ◌%◌, ◌^◌, Bool, true, false, not, ◌&&◌, Option, none, some, List, [], ◌∷◌,
  if◌then◌else◌, equal, text, Bytes,
}
use nyan_sd.ByteBauble.{BbEndianness}
use nyan_sd.Nyansd.{Protocol, all, tcp, udp, Service, blank_service}
use nyan_sd.Nyansd.Ipv4.{ipv4_string_to_uint}
use nyan_sd.Nyansd.Registry.{empty, add_service}

-- A C++ `long`; `negative n` is -(n + 1).
pub data Long : Type 0 where
  positive : ℕ → Long
  negative : ℕ → Long

-- The conversion to uint16_t in `sv.port = ...`.
abbrev pub to_uint16 : Long → ℕ
to_uint16 (positive n) = n % 2 ^ 16
to_uint16 (negative n) = 2 ^ 16 - 1 - n % 2 ^ 16

-- An INIReader over a file: `ParseError() != 0`, `Sections()` in the order of the set,
-- `Get(section, name, default)` and `GetInteger(section, name, default)`.
pub record IniReader : Type 0 where
  pub parse_failed : Bool
  pub section_names : List Bytes
  pub get : Bytes → Bytes → Bytes → Bytes
  pub get_integer : Bytes → Bytes → Long → Long

-- An entry of the folder.
pub record DirectoryEntry : Type 0 where
  pub is_regular_file : Bool
  pub extension : Bytes
  pub reader : IniReader

-- "tcp", "udp" or "all".
unfoldable pub named_protocol : Bytes → Option Protocol
named_protocol name =
    if equal name (text "tcp")
    then some tcp
    else if equal name (text "udp")
    then some udp
    else if equal name (text "all")
    then some all
    else none

-- What a part of `main` leads to, with the registered services: it goes on; `return 1`; or an
-- exception leaves.
pub data Load : Type 0 where
  loaded : List Service → Load
  failed : List Service → Load
  thrown : List Service → Load

-- An empty text stands for address 0. `read_address` is `ipv4_stringToUint`.
unfoldable pub configured_ipv4 : (Bytes → Option ℕ) → Bytes → Option ℕ
configured_ipv4 read_address [] = some 0
configured_ipv4 read_address (c ∷ cs) = read_address (c ∷ cs)

register : Bool × List Service → Load
register (true, services) = loaded services
register (false, services) = failed services

with_address : Bytes → Service → List Service → Option ℕ → Load
unfolding register
with_address host_name sv services none = thrown services
with_address host_name sv services (some ipv4) =
    register (add_service host_name (record sv { ipv4 = ipv4 }) services)

-- The fields of `sv` but for the address.
abbrev pub section_service : IniReader → Bytes → Bytes → Protocol → Service
section_service ini section name protocol = record {
  ipv4 = 0;
  ipv6 = ini.get section (text "ipv6") [];
  port = to_uint16 (ini.get_integer section (text "port") (positive 0));
  hostname = ini.get section (text "host") [];
  service = name;
  protocol = protocol;
}

with_protocol :
    (Bytes → Option ℕ) → Bytes → IniReader → Bytes → Bytes → List Service → Option Protocol → Load
unfolding with_address
with_protocol read_address host_name ini section name services none = loaded services
with_protocol read_address host_name ini section name services (some protocol) =
    with_address host_name (section_service ini section name protocol) services
      (configured_ipv4 read_address (ini.get section (text "ipv4") []))

-- The body of the loop over the sections.
unfoldable pub load_section : (Bytes → Option ℕ) → Bytes → IniReader → Bytes → List Service → Load
unfolding with_protocol
load_section read_address host_name ini section services =
    let name = ini.get section (text "name") [] in
    if empty name
    then loaded services
    else with_protocol read_address host_name ini section name services
        (named_protocol (ini.get section (text "protocol") []))

after_load : Load → (List Service → Load) → Load
after_load (loaded services) next = next services
after_load (failed services) next = failed services
after_load (thrown services) next = thrown services

unfoldable pub load_sections :
    (Bytes → Option ℕ) → Bytes → IniReader → List Bytes → List Service → Load
unfolding after_load
load_sections read_address host_name ini [] services = loaded services
load_sections read_address host_name ini (section ∷ sections) services =
    after_load (load_section read_address host_name ini section services)
      (λ services'. load_sections read_address host_name ini sections services')

-- One directory entry.
unfoldable pub load_entry : (Bytes → Option ℕ) → Bytes → DirectoryEntry → List Service → Load
load_entry read_address host_name entry services =
    let ini = entry.reader in
    if entry.is_regular_file && equal entry.extension (text ".service")
    then (if ini.parse_failed
        then failed services
        else load_sections read_address host_name ini ini.section_names services)
    else loaded services

unfoldable pub load_entries : (Bytes → Option ℕ) → Bytes → List DirectoryEntry → List Service → Load
unfolding after_load
load_entries read_address host_name [] services = loaded services
load_entries read_address host_name (entry ∷ entries) services =
    after_load (load_entry read_address host_name entry services)
      (λ services'. load_entries read_address host_name entries services')

-- How `main` comes out of its first part: it starts the listener with these services, it returns
-- 1, or an exception ends it.
pub data Start : Type 0 where
  serving : List Service → Start
  exit_1 : Start
  uncaught : Start

start_of : Load → Start
start_of (loaded services) = serving services
start_of (failed services) = exit_1
start_of (thrown services) = uncaught

-- `none` is a services path that does not exist.
unfoldable pub daemon_run : (Bytes → Option ℕ) → Bytes → Option (List DirectoryEntry) → Start
unfolding start_of
daemon_run read_address host_name none = exit_1
daemon_run read_address host_name (some entries) =
    start_of (load_entries read_address host_name entries [])

-- `main` where `unsigned long` has 64 bits.
unfoldable pub daemon_main : BbEndianness → Bytes → Option (List DirectoryEntry) → Start
daemon_main machine = daemon_run (ipv4_string_to_uint machine)
