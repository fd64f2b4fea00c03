-- ===== src/WolTarget.antt =====
-- backend/app/connectors/net.py, `wol_target`: where the magic packet goes. Name resolution, the
-- two listings of the network interfaces and the arithmetic of subnets are parameters.
pub mod Destinations
use joulenap.Prelude.{
  Bool, true, false, not, Option, none, some, List, Text, find, text_eq, is_empty, if◌then◌else◌,
}

pub record NetInterface : Type 0 where
  pub name : Text
  pub address : Text
  pub netmask : Text

-- `listed` is what `find_interface` sees, `listed_again` what the search for a subnet sees.
pub record Network : Type 0 where
  pub resolve_ip : Text → Option Text
  pub listed : List NetInterface
  pub listed_again : List NetInterface
  pub contains : NetInterface → Text → Bool
  pub broadcast : NetInterface → Text

unfoldable pub find_interface : Text → List NetInterface → Option NetInterface
find_interface name = find (λ (i : NetInterface). text_eq i.name name)

abbrev pub address_of : Option NetInterface → Option Text
address_of none = none
address_of (some i) = some i.address

module _ (net : Network) where
  -- The interface that was configured, if there is one, or that of the subnet.
  unfoldable pub choose : Text → Option Text → Option NetInterface
  choose iface_name ip =
      let named = if is_empty iface_name then none else find_interface iface_name net.listed in
      elim named [
        | some i ↦ some i
        | none ↦ elim ip [
          | none ↦ none
          | some address ↦ find (λ i. net.contains i address) net.listed_again
        ]
      ]

  unfoldable pub aim : Text → Option Text → Option NetInterface → Text × Option Text
  aim host (some ip) (some i) =
      if net.contains i ip then (net.broadcast i, some i.address) else (host, some i.address)
  aim host none (some i) = (host, some i.address)
  aim host (some ip) none = (host, none)
  aim host none none = (host, none)

  unfoldable pub wol_target : Text → Text → Text × Option Text
  wol_target host iface_name = let ip = net.resolve_ip host in aim host ip (choose iface_name ip)
