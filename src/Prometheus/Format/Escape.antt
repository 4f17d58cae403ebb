-- ===== src/Prometheus/Format/Escape.antt =====
-- The escapes that the text format of Prometheus asks for in a label value, and samples that can be
-- printed without them (for src/prometheus.rs, which writes none).
use Prim.Native.Char.{code}
use Prim.Native.String.{String, [] as empty, ◌∷◌ as char_then, ◌++◌ as append}
use netalert.Prelude.{
  ◌≡◌, ◌≢◌, refl, ap, List, [], ◌∷◌, map, All, Bool, true, false, ◌==◌, ◌||◌, if◌then◌else◌, arith,
}
use netalert.Prometheus.Format.{Sample, Family, print}

-- `\\`, `\"` and `\n` stand for a backslash, a quote and a line break.
unfoldable pub escape : String → String
escape empty = empty
escape (char_then c s) =
    let rest = escape s in
    if code c == b'\\'
    then append "\\\\" rest
    else if code c == b'"'
    then append "\\\"" rest
    else if code c == b'\n'
    then append "\\n" rest
    else char_then c rest

-- A text without these three characters
unfoldable pub is_plain : String → Bool
is_plain empty = true
is_plain (char_then c s) =
    let rest = is_plain s in
    if code c == b'\\' || (code c == b'"' || code c == b'\n') then false else rest

pub escape-plain : (s : String) → is_plain s ≡ true → escape s ≡ s
unfolding escape is_plain
escape-plain empty h = refl
escape-plain (char_then c s) h = ground (arith, escape-plain s)

abbrev escape_labels : List (String × String) → List (String × String)
escape_labels ls = map (λ l. (l.0, escape l.1)) ls

abbrev escape_sample : Sample → Sample
escape_sample s = record s { labels = escape_labels s.labels }

abbrev escape_family : Family → Family
escape_family family = record family { samples = map escape_sample family.samples }

-- The text of the families, with the escapes.
abbrev pub exposition : List Family → String
exposition families = print (map escape_family families)

-- No label name stands twice.
abbrev pub AreDistinct : List (String × String) → Type 0
AreDistinct [] = Unit
AreDistinct (l ∷ ls) = All (λ m. l.0 ≢ m.0) ls × AreDistinct ls

-- The label values of a sample need no escapes.
abbrev pub IsPlain : Sample → Type 0
IsPlain s = All (λ l. is_plain l.1 ≡ true) s.labels

escape_labels-plain :
    (ls : List (String × String)) → All (λ l. is_plain l.1 ≡ true) ls → escape_labels ls ≡ ls
escape_labels-plain [] h = refl
escape_labels-plain ((k, v) ∷ ls) h = rw (escape-plain v h.0, escape_labels-plain ls h.1) refl

escape_samples-plain : (ss : List Sample) → All IsPlain ss → map escape_sample ss ≡ ss
escape_samples-plain [] h = refl
escape_samples-plain (s ∷ ss) h =
    rw (escape_labels-plain s.labels h.0, escape_samples-plain ss h.1) refl

escape_families-plain :
    (fs : List Family) → All (λ f. All IsPlain f.samples) fs → map escape_family fs ≡ fs
escape_families-plain [] h = refl
escape_families-plain (f ∷ fs) h =
    rw (escape_samples-plain f.samples h.0, escape_families-plain fs h.1) refl

-- Families whose label values need no escapes are printed as they are.
pub exposition-plain :
    (fs : List Family) → All (λ f. All IsPlain f.samples) fs → exposition fs ≡ print fs
exposition-plain fs h = ap print (escape_families-plain fs h)
