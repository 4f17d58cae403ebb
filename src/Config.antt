-- ===== src/Config.antt =====
-- The types of src/config.rs, and what the code computes of them. A hash map is the list of its
-- entries in iteration order. `Net` is `ipnet::IpNet`, which is not part of the repository; a
-- `Duration` is its nanoseconds.
pub mod Classify
pub mod Validate
pub mod Exporters
use Prim.Native.Nat.{bit_and}
use netalert.Prelude.{
  ℕ, ◌*◌, ◌^◌, String, List, [], ◌∷◌, ◌++◌, Option, none, some, ◌==◌, not, if◌then◌else◌,
}
use mathlib.Core.Option.{get_or}
use netalert.Flow.{IpAddr}

pub data Direction : Type 0 where
  inbound outbound : Direction

unfoldable pub Direction-discrete : Discrete Direction
Direction-discrete = hlevel

pub data ProtocolCategory : Type 0 where
  tcp udp icmp gre esp tcp_syn dns https any : ProtocolCategory

unfoldable pub ProtocolCategory-discrete : Discrete ProtocolCategory
ProtocolCategory-discrete = hlevel

-- `strum::Display`, in lower case
unfoldable pub direction_name : Direction → String
direction_name inbound = "inbound"
direction_name outbound = "outbound"

-- `strum::Display`, in snake case
unfoldable pub category_name : ProtocolCategory → String
category_name tcp = "tcp"
category_name udp = "udp"
category_name icmp = "icmp"
category_name gre = "gre"
category_name esp = "esp"
category_name tcp_syn = "tcp_syn"
category_name dns = "dns"
category_name https = "https"
category_name any = "any"

-- The branches of `classify` that look at the flags and the port.
abbrev classify_tcp : ℕ → ℕ → List ProtocolCategory
classify_tcp tcp_flags dst_port =
    (tcp ∷ [])
    ++ ((if bit_and tcp_flags 0x02 == 0 then [] else tcp_syn ∷ [])
        ++ ((if dst_port == 443 then https ∷ [] else [])
            ++ (if dst_port == 53 then dns ∷ [] else [])))

abbrev classify_udp : ℕ → List ProtocolCategory
classify_udp dst_port = udp ∷ (if dst_port == 53 then dns ∷ [] else [])

unfoldable pub classify : ℕ → ℕ → ℕ → List ProtocolCategory
classify protocol tcp_flags dst_port =
    any
    ∷ (if protocol == 6
        then classify_tcp tcp_flags dst_port
        else if protocol == 17
        then classify_udp dst_port
        else if protocol == 1
        then icmp ∷ []
        else if protocol == 58
        then icmp ∷ []
        else if protocol == 47
        then gre ∷ []
        else if protocol == 50
        then esp ∷ []
        else [])

pub record ThresholdPair (W : Type 0) : Type 0 where
  pub trigger : W
  pub recover : Option W

abbrev pub recover_value : {W : Type 0} → ThresholdPair W → W
recover_value t = get_or t.recover t.trigger

pub record MetricThresholds (W : Type 0) : Type 0 where
  pub bps : Option (ThresholdPair W)
  pub pps : Option (ThresholdPair W)
  pub fps : Option (ThresholdPair W)

pub record DirectionMetrics (W : Type 0) : Type 0 where
  pub metrics : MetricThresholds W

pub record AlertPolicyConfig : Type 0 where
  pub trigger_for : ℕ
  pub recover_for : ℕ

pub record ExporterConfig : Type 0 where
  pub address : IpAddr
  pub sampling_rate : ℕ

pub record RuleConfig (W Net : Type 0) : Type 0 where
  pub prefix : Net
  pub labels : List (String × String)
  pub alert_policy : Option String
  pub thresholds : List (ProtocolCategory × List (Direction × DirectionMetrics W))

-- `Duration::from_secs`
abbrev pub from_secs : ℕ → ℕ
from_secs n = n * 1_000_000_000

pub record GlobalConfig : Type 0 where
  pub evaluation_interval : ℕ
  pub window : ℕ
  pub alert_script : Option String
  pub capture_buffer_size : ℕ
  pub mitigation_update_interval : ℕ

-- The defaults of the two fields that may be left out.
abbrev pub default_capture_buffer_size : ℕ
default_capture_buffer_size = 500

abbrev pub default_mitigation_update_interval : ℕ
default_mitigation_update_interval = from_secs 30

pub record Config (W Net : Type 0) : Type 0 where
  pub global : GlobalConfig
  pub exporters : List (String × ExporterConfig)
  pub alert_policies : List (String × AlertPolicyConfig)
  pub rules : List (RuleConfig W Net)
