-- ===== src/Daemon/Dispatch/Introspection.antt =====
-- `driver_introspection_xml` of crates/oxibus-daemon/src/dispatch.rs.
use oxibus.Base.{◌++◌, Text, codes}
use oxibus.Core.Names.WellKnown

unfoldable pub doctype : Text
doctype =
    codes "<!DOCTYPE node PUBLIC \"-//freedesktop//DTD D-BUS Object Introspection 1.0//EN\"\n"
    ++ (codes " \"http://www.freedesktop.org/standards/dbus/1.0/introspect.dtd\">\n"
        ++ (codes "<node>\n"))

unfoldable pub bus_part : Text
bus_part =
    (codes "  <interface name=\"" ++ (WellKnown.bus_interface ++ codes "\">\n"))
    ++ (codes "    <method name=\"Hello\"><arg direction=\"out\" type=\"s\"/></method>\n"
        ++ (codes
              "    <method name=\"RequestName\"><arg direction=\"in\" type=\"s\"/><arg direction=\"in\" type=\"u\"/><arg direction=\"out\" type=\"u\"/></method>\n"
            ++ (codes
                  "    <method name=\"ReleaseName\"><arg direction=\"in\" type=\"s\"/><arg direction=\"out\" type=\"u\"/></method>\n"
                ++ (codes
                      "    <method name=\"ListNames\"><arg direction=\"out\" type=\"as\"/></method>\n"
                    ++ (codes
                          "    <method name=\"ListActivatableNames\"><arg direction=\"out\" type=\"as\"/></method>\n"
                        ++ (codes
                              "    <method name=\"NameHasOwner\"><arg direction=\"in\" type=\"s\"/><arg direction=\"out\" type=\"b\"/></method>\n"
                            ++ (codes
                                  "    <method name=\"GetNameOwner\"><arg direction=\"in\" type=\"s\"/><arg direction=\"out\" type=\"s\"/></method>\n"
                                ++ (codes
                                      "    <method name=\"ListQueuedOwners\"><arg direction=\"in\" type=\"s\"/><arg direction=\"out\" type=\"as\"/></method>\n"
                                    ++ (codes
                                          "    <method name=\"StartServiceByName\"><arg direction=\"in\" type=\"s\"/><arg direction=\"in\" type=\"u\"/><arg direction=\"out\" type=\"u\"/></method>\n"
                                        ++ (codes
                                              "    <method name=\"AddMatch\"><arg direction=\"in\" type=\"s\"/></method>\n"
                                            ++ (codes
                                                  "    <method name=\"RemoveMatch\"><arg direction=\"in\" type=\"s\"/></method>\n"
                                                ++ (codes
                                                      "    <method name=\"GetConnectionUnixUser\"><arg direction=\"in\" type=\"s\"/><arg direction=\"out\" type=\"u\"/></method>\n"
                                                    ++ (codes
                                                          "    <method name=\"GetConnectionUnixProcessID\"><arg direction=\"in\" type=\"s\"/><arg direction=\"out\" type=\"u\"/></method>\n"
                                                        ++ (codes
                                                            "    <method name=\"GetConnectionCredentials\"><arg direction=\"in\" type=\"s\"/><arg direction=\"out\" type=\"a{sv}\"/></method>\n"
                                                            ++ (codes
                                                            "    <method name=\"GetId\"><arg direction=\"out\" type=\"s\"/></method>\n"
                                                            ++ (codes
                                                            "    <method name=\"UpdateActivationEnvironment\"><arg direction=\"in\" type=\"a{ss}\"/></method>\n"
                                                            ++ (codes
                                                            "    <signal name=\"NameOwnerChanged\"><arg type=\"s\"/><arg type=\"s\"/><arg type=\"s\"/></signal>\n"
                                                            ++ (codes
                                                            "    <signal name=\"NameLost\"><arg type=\"s\"/></signal>\n"
                                                            ++ (codes
                                                            "    <signal name=\"NameAcquired\"><arg type=\"s\"/></signal>\n"
                                                            ++ (codes
                                                            "  </interface>\n"))))))))))))))))))))

unfoldable pub peer_part : Text
peer_part =
    (codes "  <interface name=\"" ++ (WellKnown.peer_interface ++ codes "\">\n"))
    ++ (codes "    <method name=\"Ping\"/>\n"
        ++ (codes "    <method name=\"GetMachineId\"><arg direction=\"out\" type=\"s\"/></method>\n"
            ++ (codes "  </interface>\n")))

unfoldable pub introspectable_part : Text
introspectable_part =
    (codes "  <interface name=\"" ++ (WellKnown.introspectable_interface ++ codes "\">\n"))
    ++ (codes "    <method name=\"Introspect\"><arg direction=\"out\" type=\"s\"/></method>\n"
        ++ (codes "  </interface>\n"))

unfoldable pub monitoring_part : Text
monitoring_part =
    (codes "  <interface name=\"" ++ (WellKnown.monitoring_interface ++ codes "\">\n"))
    ++ (codes
          "    <method name=\"BecomeMonitor\"><arg direction=\"in\" type=\"as\"/><arg direction=\"in\" type=\"u\"/></method>\n"
        ++ (codes "  </interface>\n"))

unfoldable pub stats_part : Text
stats_part =
    (codes "  <interface name=\"" ++ (WellKnown.stats_interface ++ codes "\">\n"))
    ++ (codes "    <method name=\"GetStats\"><arg direction=\"out\" type=\"a{sv}\"/></method>\n"
        ++ (codes
              "    <method name=\"GetConnectionStats\"><arg direction=\"in\" type=\"s\"/><arg direction=\"out\" type=\"a{sv}\"/></method>\n"
            ++ (codes "  </interface>\n")))

unfoldable pub end_of_node : Text
end_of_node = codes "</node>\n"

unfoldable pub driver_introspection_xml : Text
unfolding doctype bus_part peer_part introspectable_part monitoring_part stats_part end_of_node
driver_introspection_xml =
    doctype
    ++ (bus_part
        ++ (peer_part
            ++ (introspectable_part ++ (monitoring_part ++ (stats_part ++ (end_of_node))))))
