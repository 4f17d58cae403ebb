-- ===== src/Config/Classify.antt =====
-- `ProtocolCategory::classify` (src/config.rs): which categories a flow belongs to.
use Prim.Native.Nat.{bit_and}
use netalert.Prelude.{ℕ, ◌≡◌, ◌≢◌, ◌↔◌, ◌⊎◌, List, [], ◌∷◌, Bool, true, false, ite, arith}
use netalert.Config.{
  ProtocolCategory, ProtocolCategory-discrete, tcp, udp, icmp, gre, esp, tcp_syn, dns, https, any,
  classify,
}

-- `cats.contains(&c)`
unfoldable pub contains : List ProtocolCategory → ProtocolCategory → Bool
contains [] c = false
contains (d ∷ ds) c = ite (ProtocolCategory-discrete d c) true (contains ds c)

-- What a category stands for: protocol number, flags and port.
abbrev pub Belongs : ProtocolCategory → ℕ → ℕ → ℕ → Type 0
Belongs tcp protocol flags port = protocol ≡ 6
Belongs udp protocol flags port = protocol ≡ 17
Belongs icmp protocol flags port = (protocol ≡ 1) ⊎ (protocol ≡ 58)
Belongs gre protocol flags port = protocol ≡ 47
Belongs esp protocol flags port = protocol ≡ 50
Belongs tcp_syn protocol flags port = (protocol ≡ 6) × (bit_and flags 0x02 ≢ 0)
Belongs dns protocol flags port = ((protocol ≡ 6) ⊎ (protocol ≡ 17)) × (port ≡ 53)
Belongs https protocol flags port = (protocol ≡ 6) × (port ≡ 443)
Belongs any protocol flags port = Unit

-- A flow is classified under exactly the categories whose protocol, flags and port it has.
pub contains-classify :
    (c : ProtocolCategory) (protocol flags port : ℕ)
    → (contains (classify protocol flags port) c ≡ true) ↔ Belongs c protocol flags port
unfolding contains classify ProtocolCategory-discrete
contains-classify tcp protocol flags port = (λ h. ground arith, λ h. ground arith)
contains-classify _ protocol flags port = (λ h. ground arith, λ h. ground arith)
