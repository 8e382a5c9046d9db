-- ===== src/Host/Plain.antt =====
-- A host whose text operations change nothing, and whose digest is a fixed run of 32 bytes for
-- each of two texts.
use hara_control.Common.{ℕ, zero, suc, ◌*◌, List, [], ◌∷◌, none, some, false, if◌then◌else◌, ◌==◌}
use hara_control.Host.{Host}
use hara_control.Host.Numbers.{not_a_number, finite, unit}

abbrev pub zeros : ℕ → List ℕ → List ℕ
zeros zero rest = rest
zeros (suc n) rest = 0 ∷ zeros n rest

abbrev pub plain : Host
plain = record {
  replace = λ p r s. s;
  matches = λ p s. false;
  occurrences = λ p s. 0;
  trim = λ s. s;
  split = λ separator s. s ∷ [];
  to_lower = λ s. s;
  prefix = λ n s. s;
  sha256 = λ s. if s == "t1" then "aa" else "bb";
  from_hex = λ s. if s == "aa" then 7 ∷ zeros 31 [] else zeros 32 [];
  number = λ s. elim s [
    | none ↦ not_a_number
    | some t ↦ if t == "9" then finite (9 * unit) else not_a_number
  ];
}
