-- ===== src/Config/Exporters.antt =====
-- `Config::exporter_sampling_rates` (src/config.rs): the map by which the receivers correct the
-- sampling rate of a flow.
use netalert.Prelude.{ℕ, String, List, [], ◌∷◌, some, ◌≡◌, ◌≢◌, refl, arith, All-Memᴰ, Memᴰ}
use netalert.Prelude.Assoc.{find, put, find-put}
use netalert.Prelude.Results.{ok}
use netalert.Flow.{IpAddr, IpAddr-discrete}
use netalert.Config.{Config, ExporterConfig}
use netalert.Config.Validate.{validate}
use netalert.Config.Validate.Laws.{AddressesAreFresh, validate_iff}

-- `collect` inserts the pairs in order.
collect_rates : List (String × ExporterConfig) → List (IpAddr × ℕ) → List (IpAddr × ℕ)
collect_rates [] rates = rates
collect_rates (e ∷ es) rates =
    collect_rates es (put IpAddr-discrete e.1.address e.1.sampling_rate rates)

unfoldable pub exporter_sampling_rates : {W Net : Type 0} → Config W Net → List (IpAddr × ℕ)
unfolding collect_rates
exporter_sampling_rates c = collect_rates c.exporters []

-- Addresses that are not among those still to come keep their rate.
find-collect_rates_other :
    (a : IpAddr) (es : List (String × ExporterConfig)) (seen : List IpAddr)
    (rates : List (IpAddr × ℕ))
    → Memᴰ a seen
    → AddressesAreFresh seen es
    → find IpAddr-discrete a (collect_rates es rates) ≡ find IpAddr-discrete a rates
unfolding collect_rates
find-collect_rates_other a [] seen rates m fresh = refl
find-collect_rates_other a (e ∷ es) seen rates m fresh = ground (
  arith,
  find-collect_rates_other a es (e.1.address ∷ seen)
      (put IpAddr-discrete e.1.address e.1.sampling_rate rates) (Memᴰ.tail m) fresh.1,
  find-put IpAddr-discrete e.1.address a e.1.sampling_rate rates,
  All-Memᴰ (λ b. e.1.address ≢ b) seen m fresh.0,
)

find-collect_rates :
    (es : List (String × ExporterConfig)) (seen : List IpAddr) (rates : List (IpAddr × ℕ))
    → AddressesAreFresh seen es
    → (e : String × ExporterConfig) → Memᴰ e es
    → find IpAddr-discrete e.1.address (collect_rates es rates) ≡ some e.1.sampling_rate
unfolding collect_rates
find-collect_rates [] seen rates fresh e m = elim m [ ]
find-collect_rates (d ∷ es) seen rates fresh e (Memᴰ.head p) = ground (
  arith,
  p,
  find-collect_rates_other d.1.address es (d.1.address ∷ seen)
      (put IpAddr-discrete d.1.address d.1.sampling_rate rates) (Memᴰ.head refl) fresh.1,
  find-put IpAddr-discrete d.1.address d.1.address d.1.sampling_rate rates,
)
find-collect_rates (d ∷ es) seen rates fresh e (Memᴰ.tail m) =
    find-collect_rates es (d.1.address ∷ seen)
      (put IpAddr-discrete d.1.address d.1.sampling_rate rates) fresh.1 e m

-- In an accepted configuration every exporter's address is mapped to this exporter's rate.
pub find-exporter_sampling_rates :
    {W Net : Type 0} (c : Config W Net) (e : String × ExporterConfig)
    → validate c ≡ ok tt
    → Memᴰ e c.exporters
    → find IpAddr-discrete e.1.address (exporter_sampling_rates c) ≡ some e.1.sampling_rate
unfolding exporter_sampling_rates
find-exporter_sampling_rates c e valid m =
    find-collect_rates c.exporters [] [] ((validate_iff c).0 valid).1 e m
