-- ===== src/Net.antt =====
-- The address libraries that the daemon calls (`ipnet`, `ip_network`, `ip_network_table`), as
-- interfaces: what the code uses of them, and the documented behaviour that it relies on.
use netalert.Prelude.{
  ℕ, String, List, [], ◌∷◌, ◌≢◌, All, Option, none, some, Bool, true, ◌≡◌, ◌↔◌, ite, Memᴰ,
}
use netalert.Flow.{IpAddr}

-- `ipnet::IpNet`
pub record IpNet (Net : Type 0) : Type 0 where
  pub to_string : Net → String
  -- `str::parse`, with `none` for an error
  pub parse : String → Option Net
  -- `matches!(net, IpNet::V4(_))`
  pub is_v4 : Net → Bool
  pub prefix_len : Net → ℕ
  pub trunc : Net → Net
  -- `subnets(len)`: the networks of that length in order, `none` for an error
  pub subnets : Net → ℕ → Option (List Net)
  pub contains : Net → IpAddr → Bool

-- `ip_network::IpNetwork`, by its parser
pub record IpNetwork (Network : Type 0) : Type 0 where
  pub parse : String → Option Network

-- `ip_network_table::IpNetworkTable<Vec<usize>>`
pub record NetworkTable (Table Network : Type 0) : Type 0 where
  pub empty : Table
  -- What `exact_match_mut` points at; a `push` through it is an `insert`.
  pub exact_match : Table → Network → Option (List ℕ)
  pub insert : Table → Network → List ℕ → Table
  pub matches : Table → IpAddr → List (Network × List ℕ)

abbrev pub HasDistinctKeys : {K V : Type 0} → List (K × V) → Type 0
HasDistinctKeys [] = Unit
HasDistinctKeys (e ∷ m) = All (λ d. e.0 ≢ d.0) m × HasDistinctKeys m

-- A table is a map from networks, and `matches` lists its networks that contain the address.
pub record TableLaws {Table Network : Type 0} (t : NetworkTable Table Network)
    (dec : Discrete Network) (contains : Network → IpAddr → Bool) : Type 0 where
  pub exact_match-empty : (n : Network) → t.exact_match t.empty n ≡ none
  pub exact_match-insert :
      (m : Table) (n k : Network) (v : List ℕ)
      → t.exact_match (t.insert m n v) k ≡ ite (dec n k) (some v) (t.exact_match m k)
  pub matches_iff :
      (m : Table) (ip : IpAddr) (n : Network) (v : List ℕ)
      → Memᴰ (n, v) (t.matches m ip) ↔ ((t.exact_match m n ≡ some v) × (contains n ip ≡ true))
  -- It lists each network once.
  pub matches_once : (m : Table) (ip : IpAddr) → HasDistinctKeys (t.matches m ip)
