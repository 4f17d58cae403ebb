-- ===== src/Prometheus/Format/Pieces.antt =====
-- Equal ways to put pieces of text together (src/prometheus.rs writes some pieces as one literal).
use Prim.Native.String.{◌++◌}
use text.Mathlib.TextLemmas.{append_assoc, append-nil, nil-append}
use netalert.Prelude.{String, ◌≡◌}
use netalert.Prometheus.{writeln}

module _ (out q comma eq opening closing space nl : String) where
  pub one_label :
      (name k v value : String)
      → (out ++ (name ++ opening ++ k ++ eq) ++ v ++ (q ++ closing ++ space) ++ value) ++ nl
        ≡ out ++ name ++ (opening ++ k ++ eq ++ v ++ q ++ "" ++ closing) ++ space ++ value ++ nl
  one_label name k v value = simp (append_assoc, nil-append)

  pub four_labels :
      (name k1 v1 k2 v2 k3 v3 k4 v4 value : String)
      → (out
            ++ (name ++ opening ++ k1 ++ eq)
            ++ v1
            ++ (q ++ comma ++ k2 ++ eq)
            ++ v2
            ++ (q ++ comma ++ k3 ++ eq)
            ++ v3
            ++ (q ++ comma ++ k4 ++ eq)
            ++ v4
            ++ (q ++ closing ++ space)
            ++ value)
          ++ nl
        ≡ out
          ++ name
          ++ (opening
              ++ k1
              ++ eq
              ++ v1
              ++ q
              ++ (comma ++ k2 ++ eq ++ v2 ++ q ++ comma ++ k3 ++ eq ++ v3 ++ q ++ comma ++ k4 ++ eq
                  ++ v4 ++ q ++ "")
              ++ closing)
          ++ space
          ++ value
          ++ nl
  four_labels name k1 v1 k2 v2 k3 v3 k4 v4 value = simp (append_assoc, nil-append)

  pub open_labels :
      (name k1 v1 k2 v2 k3 v3 more value : String)
      → (((out
                ++ name
                ++ (opening ++ k1 ++ eq)
                ++ v1
                ++ (q ++ comma ++ k2 ++ eq)
                ++ v2
                ++ (q ++ comma ++ k3 ++ eq)
                ++ v3
                ++ q)
              ++ more)
            ++ (closing ++ space)
            ++ value)
          ++ nl
        ≡ out
          ++ name
          ++ (opening
              ++ k1
              ++ eq
              ++ v1
              ++ q
              ++ (comma ++ k2 ++ eq ++ v2 ++ q ++ comma ++ k3 ++ eq ++ v3 ++ q ++ more)
              ++ closing)
          ++ space
          ++ value
          ++ nl
  open_labels name k1 v1 k2 v2 k3 v3 more value = simp append_assoc

  pub no_label :
      (name value : String)
      → (out ++ (name ++ space) ++ value) ++ nl ≡ out ++ (name ++ "" ++ space ++ value ++ nl) ++ ""
  no_label name value = simp (append_assoc, nil-append, append-nil)

  pub next_label :
      (k v more : String)
      → (out ++ comma ++ k ++ eq ++ v ++ q) ++ more ≡ out ++ comma ++ k ++ eq ++ v ++ q ++ more
  next_label k v more = simp append_assoc

pub described :
    (out help kind samples : String)
    → writeln (writeln out help) kind ++ samples ≡ out ++ help ++ "\n" ++ kind ++ "\n" ++ samples
described out help kind samples = simp append_assoc
