-- ===== src/Common/Interfaces/Runs.antt =====
-- `interface_to_ipaddr` at a concrete list of interfaces.
use niceperf.Prelude.{◌≡◌, ◌↔◌, List, [], ◌∷◌}
use niceperf.Prelude.Outcome.{ok}
use niceperf.Common.Os.{IpAddr, v4, v6}
use niceperf.Common.Interfaces.{Interface, First, interface_to_ipaddr, interface_to_ipaddr-First}

abbrev two_interfaces : List Interface
two_interfaces =
    record { name = "lo"; ips = v4 1 ∷ [] } ∷ record { name = "eth0"; ips = v6 9 ∷ v4 7 ∷ [] } ∷ []

interface_to_ipaddr-First_example : (interface_to_ipaddr "eth0" two_interfaces ≡ ok (v6 9)) ↔ (
    (i : Interface) × (rest : List IpAddr) × First "eth0" i two_interfaces × (i.ips ≡ v6 9 ∷ rest))
interface_to_ipaddr-First_example = interface_to_ipaddr-First "eth0" two_interfaces (v6 9)
