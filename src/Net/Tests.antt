-- ===== src/Net/Tests.antt =====
-- Addresses at concrete texts.
use luci_app_gowan.Common.{◌≡◌, refl, none, some, codes, false, split, cut, decimal}
use luci_app_gowan.Net.{parse_ip, parse_cidr, is_ipv4}

quad : parse_ip (codes "10.0.1.51") ≡ some 0xffff_0a00_0133
unfolding parse_ip split decimal
quad = refl

leading_zero : parse_ip (codes "10.0.01.51") ≡ none
unfolding parse_ip split decimal
leading_zero = refl

loopback6 : parse_ip (codes "::1") ≡ some 1
unfolding parse_ip split decimal
loopback6 = refl

documentation6 : parse_ip (codes "2001:db8::8:1") ≡ some 0x2001_0db8_0000_0000_0000_0000_0008_0001
unfolding parse_ip split decimal
documentation6 = refl

mapped : parse_ip (codes "::ffff:1.2.3.4") ≡ some 0xffff_0102_0304
unfolding parse_ip split decimal
mapped = refl

host_name : is_ipv4 (codes "example.com") ≡ false
unfolding is_ipv4 parse_ip split decimal
host_name = refl

cidr : parse_cidr (codes "10.0.0.0/8") ≡ some (record { base = 0xffff_0a00_0000; host_bits = 24 })
unfolding parse_cidr split cut decimal
cidr = refl
