-- ===== src/Mitigation/Text.antt =====
-- The texts of a rule (src/mitigation.rs): protocol and flag names, and host prefixes.
use Prim.Native.Nat.{bit_and}
use netalert.Prelude.{ℕ, ◌/◌, ◌%◌, String, List, [], ◌∷◌, ◌==◌, ltb, if◌then◌else◌}
use Prim.Native.String.{◌++◌ as append}
use netalert.Flow.{IpAddr, v4, v6}
use netalert.Config.{ProtocolCategory, tcp, udp, icmp, gre, esp, tcp_syn, dns, https, any}

unfoldable pub proto_number : ProtocolCategory → ℕ
proto_number tcp = 6
proto_number tcp_syn = 6
proto_number https = 6
proto_number udp = 17
proto_number icmp = 1
proto_number gre = 47
proto_number esp = 50
proto_number any = 0
proto_number dns = 0

unfoldable pub digit : ℕ → String
digit n =
    if n == 0
    then "0"
    else if n == 1
    then "1"
    else if n == 2
    then "2"
    else if n == 3
    then "3"
    else if n == 4
    then "4"
    else if n == 5
    then "5"
    else if n == 6
    then "6"
    else if n == 7
    then "7"
    else if n == 8
    then "8"
    else "9"

-- `to_string` of a `u8`
unfoldable pub decimal : ℕ → String
unfolding digit
decimal n =
    if ltb n 10
    then digit n
    else if ltb n 100
    then append (digit (n / 10)) (digit (n % 10))
    else append (digit (n / 100)) (append (digit (n / 10 % 10)) (digit (n % 10)))

unfoldable pub protocol_name : ℕ → String
unfolding decimal
protocol_name proto =
    if proto == 1
    then "icmp"
    else if proto == 6
    then "tcp"
    else if proto == 17
    then "udp"
    else if proto == 47
    then "gre"
    else if proto == 50
    then "esp"
    else if proto == 58
    then "icmp6"
    else decimal proto

-- `if flags & bit != 0 { names.push(name) }`, in front of the later names.
abbrev flag_name : ℕ → ℕ → String → List String → List String
flag_name flags bit name rest = if bit_and flags bit == 0 then rest else name ∷ rest

unfoldable pub tcp_flag_names : ℕ → List String
tcp_flag_names flags = flag_name flags 0x01 "fin" (
    flag_name flags 0x02 "syn" (
      flag_name flags 0x04 "rst"
        (flag_name flags 0x08 "psh" (flag_name flags 0x10 "ack" (flag_name flags 0x20 "urg" [])))))

-- `format!("{}/32", ip)` or `format!("{}/128", ip)`; how an address is shown is given.
unfoldable pub host_prefix : (IpAddr → String) → IpAddr → String
host_prefix show (v4 a) = append (show (v4 a)) "/32"
host_prefix show (v6 a) = append (show (v6 a)) "/128"
