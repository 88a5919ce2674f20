-- ===== src/Tests/IpTests.antt =====
-- Addresses as text.
use lwproxy.Base.{◌≡◌, refl, some, none}
use lwproxy.Code.{codes}
use lwproxy.Net.{v4, v6}
use lwproxy.IpText.{parse_ip, show_ipv6}

parse_runs :
    (parse_ip (codes "192.168.0.1") ≡ some (v4 0xC0A80001))
    × (parse_ip (codes "fd00::1") ≡ some (v6 0xfd000000000000000000000000000001))
    × (parse_ip (codes "::ffff:1.2.3.4") ≡ some (v6 0xffff01020304))
    × (parse_ip (codes "1:2:3:4:5:6:7:8") ≡ some (v6 0x00010002000300040005000600070008))
    × (parse_ip (codes "01.2.3.4") ≡ none)
    × (parse_ip (codes "256.2.3.4") ≡ none)
    × (parse_ip (codes "fd00::1::") ≡ none)
    × (parse_ip (codes "1.2.3.4 ") ≡ none)
    × (parse_ip (codes "::") ≡ some (v6 0))
unfolding parse_ip
parse_runs = (refl, refl, refl, refl, refl, refl, refl, refl, refl)

show_runs :
    (show_ipv6 0xfd000000000000000000000000000001 ≡ codes "fd00::1")
    × (show_ipv6 0 ≡ codes "::")
    × (show_ipv6 0xffff01020304 ≡ codes "::ffff:1.2.3.4")
    × (show_ipv6 0x00010000000300000000000000070008 ≡ codes "1:0:3::7:8")
    × (show_ipv6 0x00010002000300040005000600070008 ≡ codes "1:2:3:4:5:6:7:8")
    × (show_ipv6 0x00010002000300040005000600000000 ≡ codes "1:2:3:4:5:6::")
unfolding show_ipv6
show_runs = (refl, refl, refl, refl, refl, refl)
