-- ===== src/ExecutorMeta/Addresses.antt =====
-- IPv4 addresses, as common/src/executor_meta.rs tells them apart and writes them.
use text.Mathlib.Text.{starts_with}
use Prim.Native.String.{slice, ◌++◌}
use funtonic.Base.{ℕ, ◌+◌, ◌/◌, ◌%◌, String, Bool, ◌&&◌, ◌||◌, if◌then◌else◌, ltb, leb, nat_eq}

-- `Ipv4Addr`, by its octets
pub record Ipv4 : Type 0 where
  pub a : ℕ
  pub b : ℕ
  pub c : ℕ
  pub d : ℕ

module _ (ip : Ipv4) where
  unfoldable pub is_loopback : Bool
  is_loopback = nat_eq ip.a 127

  unfoldable pub is_private : Bool
  is_private =
      nat_eq ip.a 10
      || (nat_eq ip.a 172 && leb 16 ip.b && leb ip.b 31)
      || (nat_eq ip.a 192 && nat_eq ip.b 168)

  unfoldable pub is_multicast : Bool
  is_multicast = leb 224 ip.a && leb ip.a 239

  unfoldable pub is_broadcast : Bool
  is_broadcast = nat_eq ip.a 255 && nat_eq ip.b 255 && nat_eq ip.c 255 && nat_eq ip.d 255

  unfoldable pub is_documentation : Bool
  is_documentation =
      (nat_eq ip.a 192 && nat_eq ip.b 0 && nat_eq ip.c 2)
      || (nat_eq ip.a 198 && nat_eq ip.b 51 && nat_eq ip.c 100)
      || (nat_eq ip.a 203 && nat_eq ip.b 0 && nat_eq ip.c 113)

  unfoldable pub is_unspecified : Bool
  is_unspecified = nat_eq ip.a 0 && nat_eq ip.b 0 && nat_eq ip.c 0 && nat_eq ip.d 0

  unfoldable pub is_link_local : Bool
  is_link_local = nat_eq ip.a 169 && nat_eq ip.b 254

unfoldable pub if_type : Ipv4 → String → String
unfolding is_loopback is_private is_multicast is_broadcast is_documentation is_unspecified
    is_link_local
if_type ip name =
    if is_loopback ip || starts_with name "lo:"
    then "loopback"
    else if is_private ip
    then "lan"
    else if is_multicast ip
    then "multicast"
    else if is_broadcast ip
    then "broadcast"
    else if is_documentation ip
    then "documentation"
    else if is_unspecified ip
    then "unspecified"
    else if is_link_local ip
    then "link_local"
    else if is_documentation ip
    then "documentation"
    else "wan"

-- Decimal digits of an octet.
abbrev digit : ℕ → String
digit n = slice "0123456789" n (n + 1)

unfoldable pub show_octet : ℕ → String
show_octet n =
    if ltb n 10
    then digit n
    else if ltb n 100
    then digit (n / 10) ++ digit (n % 10)
    else digit (n / 100) ++ digit (n / 10 % 10) ++ digit (n % 10)

unfoldable pub show_ip : Ipv4 → String
unfolding show_octet
show_ip ip =
    show_octet ip.a ++ "." ++ show_octet ip.b ++ "." ++ show_octet ip.c ++ "." ++ show_octet ip.d
