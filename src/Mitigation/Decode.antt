-- ===== src/Mitigation/Decode.antt =====
-- The names in a rule (`protocol_name` and `tcp_flag_names` of src/mitigation.rs), read back.
use Prim.Native.Nat.{ℕ, zero, suc}
use Prim.Native.Char.{code}
use Prim.Native.String.{String, [] as empty, ◌∷◌ as char_then}
use netalert.Prelude.{
  ◌+◌, ◌-◌, ◌*◌, ◌%◌, ◌<◌, ◌≡◌, ◌⊎◌, inl, inr, refl, List, [], ◌∷◌, Bool, true, ◌==◌, ◌&&◌, ite,
  String-discrete, arith, sym, subst,
}
use netalert.Mitigation.Text.{digit, decimal, protocol_name, tcp_flag_names}

abbrev all_below : ℕ → (ℕ → Bool) → Bool
all_below zero test = true
all_below (suc n) test = test n && all_below n test

all_below_lem :
    (n : ℕ) (test : ℕ → Bool) → all_below n test ≡ true → (i : ℕ) → i < n → test i ≡ true
all_below_lem zero test all i lt = absurd (omega arith)
all_below_lem (suc n) test all i lt =
    let both : (test n ≡ true) × (all_below n test ≡ true) = ground (arith, all) in
    elim (before i n lt) [
      | inl lower ↦ all_below_lem n test both.1 i lower
      | inr same ↦ subst (λ x. test x ≡ true) (sym same) both.0
    ]
  where
    before : (i n : ℕ) → i < suc n → (i < n) ⊎ (i ≡ n)
    before i n lt = ground arith

-- The number of a decimal text
read_decimal : ℕ → String → ℕ
read_decimal shown empty = shown
read_decimal shown (char_then c s) = read_decimal (shown * 10 + (code c - 48)) s

-- The IANA number of a protocol, by its name or its digits
pub protocol_of : String → ℕ
unfolding read_decimal
protocol_of s = ite (String-discrete s "icmp") 1 (
    ite (String-discrete s "tcp") 6 (
      ite (String-discrete s "udp") 17 (
        ite (String-discrete s "gre") 47 (
          ite (String-discrete s "esp") 50
            (ite (String-discrete s "icmp6") 58 (read_decimal 0 s))))))

-- The bit of a flag in the TCP header
abbrev flag_of : String → ℕ
flag_of s = ite (String-discrete s "fin") 1 (
    ite (String-discrete s "syn") 2 (
      ite (String-discrete s "rst") 4 (
        ite (String-discrete s "psh") 8
          (ite (String-discrete s "ack") 16 (ite (String-discrete s "urg") 32 0)))))

pub flags_of : List String → ℕ
flags_of [] = 0
flags_of (name ∷ names) = flag_of name + flags_of names

all_protocols : all_below 256 (λ p. protocol_of (protocol_name p) == p) ≡ true
unfolding protocol_of protocol_name decimal digit String-discrete
all_protocols = refl

-- The name of every protocol number is read back as this number.
pub protocol_of-protocol_name :
    (proto : ℕ) → proto < 256 → protocol_of (protocol_name proto) ≡ proto
protocol_of-protocol_name proto lt =
    ground
      (arith, all_below_lem 256 (λ p. protocol_of (protocol_name p) == p) all_protocols proto lt)

all_flags : all_below 256 (λ flags. flags_of (tcp_flag_names flags) == flags % 64) ≡ true
unfolding flags_of tcp_flag_names String-discrete
all_flags = refl

-- The names of TCP flags are read back as the lower six bits of the flags.
pub flags_of-tcp_flag_names :
    (flags : ℕ) → flags < 256 → flags_of (tcp_flag_names flags) ≡ flags % 64
flags_of-tcp_flag_names flags lt = ground (
  arith,
  all_below_lem 256 (λ flags. flags_of (tcp_flag_names flags) == flags % 64) all_flags flags lt,
)
