-- ===== src/Config/Samples.antt =====
-- A configuration for tests.
use fpgaml.Common.{ℕ, false, some, [], ◌∷◌}
use fpgaml.Common.Int.{pos}
use fpgaml.Config.{ConfigXml}

-- Every node is there and has the value "1"; the array of partial regions has one element, on the
-- board 0.
abbrev pub digits : ConfigXml
digits = record {
  Node = ℕ;
  Real = Unit;
  load_file = λ f. some 0;
  root_child = λ n name. 1;
  child = λ n key. 2;
  is_empty = λ n. false;
  child_value = λ n. b'1' ∷ [];
  elements = λ n. 3 ∷ [];
  atoi = λ s. pos 1;
  strtoull = λ s. 0;
  strtod = λ s. tt;
}
