-- ===== src/Examples/WolTargetCases.antt =====
-- `wol_target` of backend/app/connectors/net.py on one interface that reaches the box.
use joulenap.Prelude.{true, some, [], ◌∷◌, codes}
use joulenap.WolTarget.{NetInterface, Network, wol_target}
use joulenap.WolTarget.Destinations.{IsTarget, wol_target-IsTarget}

abbrev lan : NetInterface
lan = record { name = codes "eth0"; address = codes "192.168.1.2"; netmask = codes "255.255.255.0" }

abbrev network : Network
network = record {
  resolve_ip = λ host. some (codes "192.168.1.9");
  listed = lan ∷ [];
  listed_again = lan ∷ [];
  contains = λ i ip. true;
  broadcast = λ i. codes "192.168.1.255";
}

wol_target-IsTarget_example :
    IsTarget network (codes "nas.lan") [] (wol_target network (codes "nas.lan") [])
wol_target-IsTarget_example = wol_target-IsTarget network (codes "nas.lan") []
