-- ===== src/Core/Names/WellKnown.antt =====
-- `well_known` of crates/oxibus-core/src/lib.rs.
use oxibus.Base.{Text, codes}

abbrev pub bus_name : Text
bus_name = codes "org.freedesktop.DBus"

abbrev pub bus_path : Text
bus_path = codes "/org/freedesktop/DBus"

abbrev pub bus_interface : Text
bus_interface = codes "org.freedesktop.DBus"

abbrev pub monitoring_interface : Text
monitoring_interface = codes "org.freedesktop.DBus.Monitoring"

abbrev pub stats_interface : Text
stats_interface = codes "org.freedesktop.DBus.Debug.Stats"

abbrev pub introspectable_interface : Text
introspectable_interface = codes "org.freedesktop.DBus.Introspectable"

abbrev pub peer_interface : Text
peer_interface = codes "org.freedesktop.DBus.Peer"

abbrev pub name_acquired : Text
name_acquired = codes "NameAcquired"

abbrev pub name_lost : Text
name_lost = codes "NameLost"

abbrev pub name_owner_changed : Text
name_owner_changed = codes "NameOwnerChanged"
