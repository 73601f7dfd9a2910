-- ===== src/Options/Network.antt =====
-- pkg/options/options.go: the address of the host, from the interfaces that the machine has.
use chaosblade_box_agent.Prelude.{
  String, Bool, not, ◌||◌, ◌⊎◌, inl, inr, Option, none, some, List, [], ◌∷◌, if◌then◌else◌,
}

-- an address of an interface: whether it is a loopback address, and its text where it is an IPv4 one
pub record Address : Type 0 where
  pub is_loopback : Bool
  pub ipv4 : Option String

-- an interface: its flags, and an error or its addresses; a nil address is left out
pub record Interface : Type 0 where
  pub up : Bool
  pub loopback : Bool
  pub addrs : String ⊎ List Address

-- the first address of an interface that is returned, if any
unfoldable pub private_addr : List Address → Option String
private_addr [] = none
private_addr (addr ∷ addrs) =
    let later = private_addr addrs in
    if addr.is_loopback then later else elim addr.ipv4 [ none ↦ later | some ip ↦ some ip ]

unfoldable pub private_addrs : List Interface → Option String
unfolding private_addr
private_addrs [] = none
private_addrs (i ∷ ifs) =
    let later = private_addrs ifs in
    if not i.up || i.loopback then later else elim i.addrs [
      | inl err ↦ later
      | inr addrs ↦ elim (private_addr addrs) [ none ↦ later | some ip ↦ some ip ]
    ]

-- `GetPrivateIp`, from an error or the interfaces: none where the process ends
unfoldable pub get_private_ip : String ⊎ List Interface → Option String
unfolding private_addrs
get_private_ip interfaces = elim interfaces [ inl err ↦ none | inr ifs ↦ private_addrs ifs ]

-- `GetHostName`, from an error or the name
unfoldable pub get_host_name : String ⊎ String → String
get_host_name hostname = elim hostname [ inl err ↦ "" | inr name ↦ name ]
