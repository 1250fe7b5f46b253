-- ===== src/Nyansd/Discovery/TooLong.antt =====
-- A query message that is longer than the receive buffers of the servers.
use nyan_sd.Nyansd.Discovery.Links.{Link, up, down, IsDown}

-- An interface works, whatever servers are behind it, or fails in a way that is caught.
abbrev pub WorksOrFails : Link → Type 0
WorksOrFails (up ip junk ss) = Unit
WorksOrFails (down ifc) = IsDown ifc
