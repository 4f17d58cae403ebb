-- ===== src/Examples/Addresses.antt =====
-- A small instance of the address libraries: the IPv4 internet and 10.0.0.0/8, and a table of the
-- two.
use Prim.Native.Nat.{ℕ, ◌/◌, ◌^◌}
use netalert.Prelude.{
  String, String-discrete, List, [], ◌∷◌, ◌++◌, Option, none, some, Bool, true, false, ite, ◌==◌,
  ◌≡◌, ◌↔◌, ◌⊎◌, refl, sym, inl, inr, Memᴰ, arith, ap,
}
use netalert.Flow.{IpAddr, v4, v6}
use netalert.Net.{IpNet, IpNetwork, NetworkTable, TableLaws, HasDistinctKeys}

pub data Area : Type 0 where
  internet ten : Area

unfoldable pub Area-discrete : Discrete Area
Area-discrete = hlevel

abbrev pub lies_in : Area → IpAddr → Bool
lies_in internet (v4 a) = true
lies_in ten (v4 a) = a / 2 ^ 24 == 10
lies_in _ (v6 a) = false

abbrev pub area_text : Area → String
area_text internet = "0.0.0.0/0"
area_text ten = "10.0.0.0/8"

abbrev pub area_of : String → Option Area
area_of s =
    ite (String-discrete s "0.0.0.0/0") (some internet)
      (ite (String-discrete s "10.0.0.0/8") (some ten) none)

abbrev length_of : Area → ℕ
length_of internet = 0
length_of ten = 8

instance abbrev pub areas : IpNet Area
areas = record {
  to_string = area_text;
  parse = area_of;
  is_v4 = λ a. true;
  prefix_len = length_of;
  trunc = λ a. a;
  subnets = λ a len. none;
  contains = lies_in;
}

instance abbrev pub area_parser : IpNetwork Area
area_parser = record { parse = area_of }

pub record AreaTable : Type 0 where
  pub of_internet : Option (List ℕ)
  pub of_ten : Option (List ℕ)

abbrev entry : Area → Option (List ℕ) → Bool → List (Area × List ℕ)
entry a (some v) true = (a, v) ∷ []
entry a _ _ = []

abbrev look : AreaTable → Area → Option (List ℕ)
look m internet = m.of_internet
look m ten = m.of_ten

abbrev store : AreaTable → Area → List ℕ → AreaTable
store m internet v = record m { of_internet = some v }
store m ten v = record m { of_ten = some v }

instance abbrev pub area_table : NetworkTable AreaTable Area
area_table = record {
  empty = record { of_internet = none; of_ten = none };
  exact_match = look;
  insert = store;
  matches = λ m ip.
      entry internet m.of_internet (lies_in internet ip)
      ++ (entry ten m.of_ten (lies_in ten ip) ++ []);
}

-- An element of two lists of entries.
entry-Memᴰ :
    (a k : Area) (o : Option (List ℕ)) (b : Bool) (v : List ℕ) (rest : List (Area × List ℕ))
    → Memᴰ (k, v) (entry a o b ++ rest)
    → ((k ≡ a) × (o ≡ some v) × (b ≡ true)) ⊎ Memᴰ (k, v) rest
entry-Memᴰ a k none b v rest m = inr m
entry-Memᴰ a k (some w) false v rest m = inr m
entry-Memᴰ a k (some w) true v rest (Memᴰ.head e) =
    inl (ap (λ x. x.0) e, ap (λ (x : Area × List ℕ). some x.1) (sym e), refl)
entry-Memᴰ a k (some w) true v rest (Memᴰ.tail m) = inr m

Memᴰ-entry :
    (a : Area) (o : Option (List ℕ)) (b : Bool) (v : List ℕ) (rest : List (Area × List ℕ))
    → (o ≡ some v) × (b ≡ true)
    → Memᴰ (a, v) (entry a o b ++ rest)
Memᴰ-entry a o b v rest (e, t) = rw (e, t) (Memᴰ.head refl)

Memᴰ-behind :
    (a k : Area) (o : Option (List ℕ)) (b : Bool) (v : List ℕ) (rest : List (Area × List ℕ))
    → Memᴰ (k, v) rest
    → Memᴰ (k, v) (entry a o b ++ rest)
Memᴰ-behind a k none b v rest m = m
Memᴰ-behind a k (some w) false v rest m = m
Memᴰ-behind a k (some w) true v rest m = Memᴰ.tail m

listed_iff :
    (m : AreaTable) (ip : IpAddr) (k : Area) (v : List ℕ)
    → Memᴰ (k, v) (area_table.matches m ip) ↔ ((look m k ≡ some v) × (lies_in k ip ≡ true))
listed_iff m ip k v = (from, to k)
  where
    from : Memᴰ (k, v) (area_table.matches m ip) → (look m k ≡ some v) × (lies_in k ip ≡ true)
    from n = elim (entry-Memᴰ internet k m.of_internet (lies_in internet ip) v _ n) [
      | inl (e, o, b) ↦ rw e (o, b)
      | inr n' ↦ elim (entry-Memᴰ ten k m.of_ten (lies_in ten ip) v [] n') [
        | inl (e, o, b) ↦ rw e (o, b)
        | inr n'' ↦ elim n'' [ ]
      ]
    ]

    to :
        (a : Area)
        → (look m a ≡ some v) × (lies_in a ip ≡ true)
        → Memᴰ (a, v) (area_table.matches m ip)
    to internet h = Memᴰ-entry internet m.of_internet (lies_in internet ip) v _ h
    to ten h =
        Memᴰ-behind internet ten m.of_internet (lies_in internet ip) v _
          (Memᴰ-entry ten m.of_ten (lies_in ten ip) v [] h)

look-empty : (a : Area) → look area_table.empty a ≡ none
look-empty internet = refl
look-empty ten = refl

look-store :
    (m : AreaTable) (a k : Area) (v : List ℕ)
    → look (store m a v) k ≡ ite (Area-discrete a k) (some v) (look m k)
look-store m internet internet v = ground arith
look-store m internet ten v = ground arith
look-store m ten internet v = ground arith
look-store m ten ten v = ground arith

listed_once : (m : AreaTable) (ip : IpAddr) → HasDistinctKeys (area_table.matches m ip)
listed_once m ip = once m.of_internet m.of_ten (lies_in internet ip) (lies_in ten ip)
  where
    once :
        (o p : Option (List ℕ)) (b c : Bool)
        → HasDistinctKeys (entry internet o b ++ (entry ten p c ++ []))
    once (some v) (some w) true true = ((λ e. ground arith, tt), (tt, tt))
    once none (some w) _ true = (tt, tt)
    once none (some w) _ false = tt
    once none none _ _ = tt
    once (some v) none true _ = (tt, tt)
    once (some v) none false _ = tt
    once (some v) (some w) true false = (tt, tt)
    once (some v) (some w) false true = (tt, tt)
    once (some v) (some w) false false = tt

pub area_table-laws : TableLaws area_table Area-discrete lies_in
area_table-laws = record {
  exact_match-empty = look-empty;
  exact_match-insert = look-store;
  matches_iff = listed_iff;
  matches_once = listed_once;
}
