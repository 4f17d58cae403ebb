-- ===== src/Config/Validate.antt =====
-- `Config::validate` and `Config::load` (src/config.rs). An error keeps the parts of its message.
pub mod Laws
use netalert.Prelude.{
  ℕ, suc, ◌+◌, ◌≡◌, ◌≢◌, ◌↔◌, ◌⊎◌, inl, inr, refl, String, String-discrete, List, [], ◌∷◌, Option,
  none, some, ite, arith, All, Memᴰ, Bool, true, false, if◌then◌else◌,
}
use netalert.Prelude.Assoc.{find}
use netalert.Prelude.Results.{Result, ok, err, ◌>>=◌, ◌>>◌}
use netalert.Flow.{IpAddr, IpAddr-discrete}
use netalert.Config.{
  Config, RuleConfig, DirectionMetrics, ThresholdPair, ExporterConfig, AlertPolicyConfig,
  ProtocolCategory, Direction,
}

pub data ConfigError (Net : Type 0) : Type 0 where
  unreadable : ConfigError Net
  unparsable : ConfigError Net
  unknown_policy : ℕ → Net → String → ConfigError Net
  no_thresholds : ℕ → Net → ConfigError Net
  no_metrics : ℕ → Net → ProtocolCategory → Direction → ConfigError Net
  duplicate_address : String → IpAddr → ConfigError Net

abbrev pub Validation : Type 0 → Type 0
Validation Net = Result (ConfigError Net) (Unit {0})

-- `if let Some(ref policy_name) = rule.alert_policy { … }`
validate_policy :
    {Net : Type 0} → List (String × AlertPolicyConfig) → ℕ → Net → Option String → Validation Net
validate_policy policies idx prefix none = ok tt
validate_policy policies idx prefix (some name) = elim (find String-discrete name policies) [
  | none ↦ err (unknown_policy idx prefix name)
  | some _ ↦ ok tt
]

module _ {W Net : Type 0} where
  -- `m.bps.is_none() && m.pps.is_none() && m.fps.is_none()` stops with an error.
  validate_metrics :
      ℕ
      → Net
      → ProtocolCategory
      → Direction
      → Option (ThresholdPair W)
      → Option (ThresholdPair W)
      → Option (ThresholdPair W)
      → Validation Net
  validate_metrics idx prefix proto direction none none none =
      err (no_metrics idx prefix proto direction)
  validate_metrics idx prefix proto direction _ _ _ = ok tt

  validate_directions :
      ℕ → Net → ProtocolCategory → List (Direction × DirectionMetrics W) → Validation Net
  validate_directions idx prefix proto [] = ok tt
  validate_directions idx prefix proto ((direction, d) ∷ ds) = do
    validate_metrics idx prefix proto direction d.metrics.bps d.metrics.pps d.metrics.fps
    validate_directions idx prefix proto ds

  validate_protocols :
      ℕ → Net → List (ProtocolCategory × List (Direction × DirectionMetrics W)) → Validation Net
  validate_protocols idx prefix [] = ok tt
  validate_protocols idx prefix ((proto, directions) ∷ ts) = do
    validate_directions idx prefix proto directions
    validate_protocols idx prefix ts

  -- `if rule.thresholds.is_empty() { bail!(…) }`, and the loops over the thresholds.
  validate_thresholds :
      ℕ → Net → List (ProtocolCategory × List (Direction × DirectionMetrics W)) → Validation Net
  validate_thresholds idx prefix [] = err (no_thresholds idx prefix)
  validate_thresholds idx prefix (t ∷ ts) = validate_protocols idx prefix (t ∷ ts)

  -- `for (idx, rule) in self.rules.iter().enumerate()`
  validate_rules : List (String × AlertPolicyConfig) → ℕ → List (RuleConfig W Net) → Validation Net
  validate_rules policies idx [] = ok tt
  validate_rules policies idx (rule ∷ rules) = do
    validate_policy policies idx rule.prefix rule.alert_policy
    validate_thresholds idx rule.prefix rule.thresholds
    validate_rules policies (idx + 1) rules

-- `seen_addrs.contains(…)`
mem_addr : IpAddr → List IpAddr → Bool
mem_addr a [] = false
mem_addr a (b ∷ seen) = ite (IpAddr-discrete a b) true (mem_addr a seen)

-- The loop over the exporters; `seen` is the hash set.
validate_exporters : {Net : Type 0} → List IpAddr → List (String × ExporterConfig) → Validation Net
validate_exporters seen [] = ok tt
validate_exporters seen ((name, e) ∷ es) =
    if mem_addr e.address seen
    then err (duplicate_address name e.address)
    else validate_exporters (e.address ∷ seen) es

module _ {W Net : Type 0} where
  unfoldable pub validate : Config W Net → Validation Net
  unfolding validate_policy validate_metrics validate_directions validate_protocols
      validate_thresholds validate_rules mem_addr validate_exporters
  validate c = do validate_rules c.alert_policies 0 c.rules; validate_exporters [] c.exporters

  -- `Config::load`: the file system and the YAML parser are given.
  unfoldable pub load :
      (String → Option String)
      → (String → Option (Config W Net))
      → String
      → Result (ConfigError Net) (Config W Net)
  unfolding validate
  load read_to_string from_str path = elim (read_to_string path) [
    | none ↦ err unreadable
    | some content ↦ elim (from_str content) [
      | none ↦ err unparsable
      | some config ↦ do validate config; ok config
    ]
  ]
