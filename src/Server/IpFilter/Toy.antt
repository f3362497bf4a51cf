-- ===== src/Server/IpFilter/Toy.antt =====
-- Addresses of four bytes: a text is an address, or one with a star as its last byte for a network.
use send_to.Prelude.{false, none, some, Bytes, codes, eq_bytes, take, drop, if◌then◌else◌}
use send_to.Server.IpFilter.{NetLib}

abbrev pub toy_net : NetLib
toy_net = record {
  Ip = Bytes;
  IpNet = Bytes;
  parse_cidr = λ s. if eq_bytes (drop 3 s) (codes "*") then some (s, take 3 s) else none;
  parse_ip = λ s. some s;
  ip_string = λ s. s;
  contains = λ ipnet s. eq_bytes (take 3 s) ipnet;
  is_single = λ ipnet. false;
}
