-- ===== src/Daemon/Files.antt =====
-- What the daemon makes of its service files.
use nyan_sd.Base.{
  ℕ, ◌≢◌, Bool, true, false, ◌&&◌, Option, none, some, List, [], ◌∷◌, All, if◌then◌else◌, equal,
  text, Bytes,
}
use nyan_sd.ByteBauble.{BbEndianness}
use nyan_sd.Nyansd.{Protocol, Service}
use nyan_sd.Nyansd.Ipv4.{ipv4_string_to_uint}
use nyan_sd.Nyansd.Registry.{empty, add_service, IsComplete, add_service_lem}
use nyan_sd.Daemon.{
  IniReader, DirectoryEntry, named_protocol, Load, loaded, failed, thrown, configured_ipv4,
  load_section, load_sections, load_entry, load_entries, Start, serving, exit_1, uncaught,
  daemon_main, daemon_run, register, with_address, with_protocol, after_load, start_of,
  section_service,
}

abbrev Complete : Load → Type 0
Complete (loaded svs) = All IsComplete svs
Complete (failed svs) = Unit
Complete (thrown svs) = Unit

-- The services that are served, if any, are complete.
abbrev pub ServesComplete : Start → Type 0
ServesComplete (serving svs) = All IsComplete svs
ServesComplete exit_1 = Unit
ServesComplete uncaught = Unit

after_load-Complete :
    (r : Load) (next : List Service → Load)
    → Complete r
    → ((svs : List Service) → All IsComplete svs → Complete (next svs))
    → Complete (after_load r next)
unfolding after_load
after_load-Complete (loaded svs) next h k = k svs h
after_load-Complete (failed svs) next h k = tt
after_load-Complete (thrown svs) next h k = tt

Complete-if : (b : Bool) (x y : Load) → Complete x → Complete y → Complete (if b then x else y)
Complete-if true x y hx hy = hx
Complete-if false x y hx hy = hy

module _ (machine : BbEndianness) (host_name : Bytes) (named : host_name ≢ []) where
  register-Complete :
      (sv : Service) (svs : List Service)
      → All IsComplete svs
      → Complete (register (add_service host_name sv svs))
  register-Complete sv svs h =
      go (add_service host_name sv svs) (add_service_lem host_name sv svs named h).0
    where
      go : (r : Bool × List Service) → All IsComplete r.1 → Complete (register r)
      go (true, out) c = unfold register in c
      go (false, out) c = unfold register in tt

  load_section-Complete :
      (ini : IniReader) (section : Bytes) (svs : List Service)
      → All IsComplete svs
      → Complete (load_section (ipv4_string_to_uint machine) host_name ini section svs)
  unfolding load_section
  load_section-Complete ini section svs h =
      Complete-if (empty (ini.get section (text "name") [])) _ _ h
        (go (named_protocol (ini.get section (text "protocol") [])))
    where
      address : (sv : Service) (o : Option ℕ) → Complete (with_address host_name sv svs o)
      address sv none = unfold with_address in tt
      address sv (some a) = unfold with_address in register-Complete (record sv { ipv4 = a }) svs h

      go :
          (p : Option Protocol)
          → Complete (
              with_protocol
                (ipv4_string_to_uint machine)
                host_name
                ini
                section
                (ini.get section (text "name") [])
                svs
                p)
      go none = unfold with_protocol in h
      go (some p) =
          unfold with_protocol in
          address (section_service ini section (ini.get section (text "name") []) p)
            (configured_ipv4 (ipv4_string_to_uint machine) (ini.get section (text "ipv4") []))

  load_sections-Complete :
      (ini : IniReader) (sections : List Bytes) (svs : List Service)
      → All IsComplete svs
      → Complete (load_sections (ipv4_string_to_uint machine) host_name ini sections svs)
  unfolding load_sections
  load_sections-Complete ini [] svs h = h
  load_sections-Complete ini (s ∷ ss) svs h =
      after_load-Complete (load_section (ipv4_string_to_uint machine) host_name ini s svs) _
        (load_section-Complete ini s svs h) (λ svs' h'. load_sections-Complete ini ss svs' h')

  load_entry-Complete :
      (entry : DirectoryEntry) (svs : List Service)
      → All IsComplete svs
      → Complete (load_entry (ipv4_string_to_uint machine) host_name entry svs)
  unfolding load_entry
  load_entry-Complete entry svs h =
      let ini = entry.reader in
      Complete-if (entry.is_regular_file && equal entry.extension (text ".service")) _ _
        (Complete-if ini.parse_failed (failed svs)
          (load_sections (ipv4_string_to_uint machine) host_name ini ini.section_names svs) tt
          (load_sections-Complete ini ini.section_names svs h))
        h

  load_entries-Complete :
      (entries : List DirectoryEntry) (svs : List Service)
      → All IsComplete svs
      → Complete (load_entries (ipv4_string_to_uint machine) host_name entries svs)
  unfolding load_entries
  load_entries-Complete [] svs h = h
  load_entries-Complete (e ∷ es) svs h =
      after_load-Complete (load_entry (ipv4_string_to_uint machine) host_name e svs) _
        (load_entry-Complete e svs h) (λ svs' h'. load_entries-Complete es svs' h')

  -- Whatever the folder and its files hold: if the daemon comes to serve, on a host that has a
  -- name, every service that it serves has a port, a name and a hostname.
  pub daemon_main-ServesComplete :
      (folder : Option (List DirectoryEntry))
      → ServesComplete (daemon_main machine host_name folder)
  unfolding daemon_main daemon_run
  daemon_main-ServesComplete none = tt
  daemon_main-ServesComplete (some entries) =
      go (load_entries (ipv4_string_to_uint machine) host_name entries [])
        (load_entries-Complete entries [] tt)
    where
      go : (r : Load) → Complete r → ServesComplete (start_of r)
      go (loaded svs) h = h
      go (failed svs) h = tt
      go (thrown svs) h = tt
