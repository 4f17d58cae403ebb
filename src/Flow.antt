-- ===== src/Flow.antt =====
-- src/flow.rs: a flow record, made from what the collector library parsed. `CommonFlow` belongs to
-- that library (`rustflow`): the record has the fields that the code reads.
use netalert.Prelude.{ℕ, ◌/◌, Option, some, ◌>>=◌, u64, ◌*u64◌, ℕ_discrete}
use mathlib.Core.Option.{get_or}

-- `std::net::IpAddr`: an address is its 32 or 128 bits.
pub data IpAddr : Type 0 where
  v4 : ℕ → IpAddr
  v6 : ℕ → IpAddr

unfoldable pub IpAddr-discrete : Discrete IpAddr
IpAddr-discrete = hlevel ℕ_discrete

-- `IpAddr::V4(Ipv4Addr::UNSPECIFIED)`
abbrev pub unspecified : IpAddr
unspecified = v4 0

pub record CommonFlow : Type 0 where
  pub time_received_ns : Option ℕ
  pub src_addr : Option IpAddr
  pub dst_addr : Option IpAddr
  pub src_port : Option ℕ
  pub dst_port : Option ℕ
  pub proto : Option ℕ
  pub tcp_flags : Option ℕ
  pub bytes : ℕ
  pub packets : ℕ
  pub sampling_rate : Option ℕ
  pub sampler_address : Option IpAddr

pub record FlowRecord : Type 0 where
  pub src_ip : IpAddr
  pub dst_ip : IpAddr
  pub src_port : ℕ
  pub dst_port : ℕ
  pub protocol : ℕ
  pub tcp_flags : ℕ
  pub bytes : ℕ
  pub packets : ℕ
  pub time_received : ℕ
  pub sampling_rate : ℕ

-- `none` is the panic of `unwrap`.
unfoldable pub from_common_flow : CommonFlow → Option FlowRecord
from_common_flow flow = do
  time_ns ← flow.time_received_ns
  some (record {
    src_ip = get_or flow.src_addr unspecified;
    dst_ip = get_or flow.dst_addr unspecified;
    src_port = get_or flow.src_port 0;
    dst_port = get_or flow.dst_port 0;
    protocol = get_or flow.proto 0;
    tcp_flags = get_or flow.tcp_flags 0;
    bytes = flow.bytes;
    packets = flow.packets;
    time_received = u64 (time_ns / 1_000_000_000);
    sampling_rate = get_or flow.sampling_rate 1;
  })

unfoldable pub sampled_bytes : FlowRecord → ℕ
sampled_bytes f = f.bytes *u64 f.sampling_rate

unfoldable pub sampled_packets : FlowRecord → ℕ
sampled_packets f = f.packets *u64 f.sampling_rate
