-- ===== src/Manager/Episodes/Topics.antt =====
-- Topics and keys (src/alert.rs): which payloads are about which alert, and that no two alerts with
-- keys of their own share a topic.
use netalert.Prelude.{
  ℕ, ◌≡◌, ◌≢◌, refl, sym, ap, ◌∙◌, String, String-discrete, List, [], ◌∷◌, ◌++◌, Option, none, some,
  arith, if_pos, if_neg,
}
use netalert.Prelude.Assoc.{find}
use netalert.Float.{Float}
use netalert.Net.{IpNet}
use netalert.Flow.{IpAddr}
use netalert.Config.{
  ProtocolCategory, tcp, udp, icmp, gre, esp, tcp_syn, dns, https, any, category_name, Direction,
  inbound, outbound, direction_name,
}
use netalert.Mitigation.Search.{Groups}
use netalert.Alert.{AlertInstance, AlertAction, fire, update, resolve, MetricType, bps, pps, fps}
use netalert.Manager.{key_of}
use netalert.Manager.Evaluate.{AlertPayload, metric_name, build_payload, Loop, act}
use netalert.Manager.Episodes.{Topic, Topic-discrete, topic_of, about}

categories : List (String × ProtocolCategory)
categories =
    ("tcp", tcp)
    ∷ ("udp", udp)
    ∷ ("icmp", icmp)
    ∷ ("gre", gre)
    ∷ ("esp", esp)
    ∷ ("tcp_syn", tcp_syn)
    ∷ ("dns", dns)
    ∷ ("https", https)
    ∷ ("any", any)
    ∷ []

directions : List (String × Direction)
directions = ("inbound", inbound) ∷ ("outbound", outbound) ∷ []

metrics : List (String × MetricType)
metrics = ("bps", bps) ∷ ("pps", pps) ∷ ("fps", fps) ∷ []

find-category_name :
    (c : ProtocolCategory) → find String-discrete (category_name c) categories ≡ some c
unfolding category_name categories String-discrete
find-category_name tcp = refl
find-category_name udp = refl
find-category_name icmp = refl
find-category_name gre = refl
find-category_name esp = refl
find-category_name tcp_syn = refl
find-category_name dns = refl
find-category_name https = refl
find-category_name any = refl

find-direction_name : (d : Direction) → find String-discrete (direction_name d) directions ≡ some d
unfolding directions direction_name String-discrete
find-direction_name inbound = refl
find-direction_name outbound = refl

find-metric_name : (m : MetricType) → find String-discrete (metric_name m) metrics ≡ some m
unfolding metrics metric_name String-discrete
find-metric_name bps = refl
find-metric_name pps = refl
find-metric_name fps = refl

-- A name that can be looked up names one thing.
pub name_inj :
    {A : Type 0} (name : A → String) (table : List (String × A))
    → ((a : A) → find String-discrete (name a) table ≡ some a)
    → (a b : A) → name a ≡ name b
    → a ≡ b
name_inj name table found a b e =
    let same : some a ≡ some b =
      sym (found a) ∙ (ap (λ s. find String-discrete s table) e ∙ found b) in
    cc

module _ {W : Type 0} where
  pub topic_of_inj : (a b : AlertInstance W) → topic_of a ≡ topic_of b → key_of a ≡ key_of b
  topic_of_inj a b e = λ i. record {
    prefix = (e i).prefix;
    protocol =
        name_inj category_name categories find-category_name a.protocol b.protocol
          (ap (λ t. t.protocol) e) i;
    direction =
        name_inj direction_name directions find-direction_name a.direction b.direction
          (ap (λ t. t.direction) e) i;
    metric =
        name_inj metric_name metrics find-metric_name a.metric b.metric (ap (λ t. t.metric) e) i;
  }

  pub about-append :
      (t : Topic) (ps qs : List (AlertPayload W)) → about t (ps ++ qs) ≡ about t ps ++ about t qs
  about-append t [] qs = refl
  about-append t (p ∷ ps) qs = ground (arith, about-append t ps qs)

module _ {W Net Network Table : Type 0} ⦃f : Float W⦄ ⦃n : IpNet Net⦄ (order : Groups → Groups)
    (show : IpAddr → String) (new_v4 : ℕ → ℕ) where
  -- An alert's payloads are about it, and it keeps its topic.
  pub topic_of-act :
      (o : Option AlertAction) (b : AlertInstance W) (rate : W) (s : Loop Net Network Table)
      → topic_of (act order show new_v4 o b rate s).0 ≡ topic_of b
  topic_of-act none b rate s = refl
  topic_of-act (some fire) b rate s = refl
  topic_of-act (some update) b rate s = refl
  topic_of-act (some resolve) b rate s = refl

  pub about-act :
      (t : Topic) (o : Option AlertAction) (b : AlertInstance W) (rate : W)
      (s : Loop Net Network Table)
      → topic_of b ≡ t
      → about t (act order show new_v4 o b rate s).2 ≡ (act order show new_v4 o b rate s).2
  unfolding build_payload
  about-act t none b rate s e = refl
  about-act t (some fire) b rate s e = if_pos (Topic-discrete (topic_of b) t) e _ _
  about-act t (some update) b rate s e = if_pos (Topic-discrete (topic_of b) t) e _ _
  about-act t (some resolve) b rate s e = if_pos (Topic-discrete (topic_of b) t) e _ _

  pub about-act_other :
      (t : Topic) (o : Option AlertAction) (b : AlertInstance W) (rate : W)
      (s : Loop Net Network Table)
      → topic_of b ≢ t
      → about t (act order show new_v4 o b rate s).2 ≡ []
  unfolding build_payload
  about-act_other t none b rate s e = refl
  about-act_other t (some fire) b rate s e = if_neg (Topic-discrete (topic_of b) t) e _ _
  about-act_other t (some update) b rate s e = if_neg (Topic-discrete (topic_of b) t) e _ _
  about-act_other t (some resolve) b rate s e = if_neg (Topic-discrete (topic_of b) t) e _ _
