-- ===== src/Algorithms/Tests.antt =====
-- A listing of a small catalogue.
use gitway.Base.{◌≡◌, refl, true, false, [], ◌∷◌}
use gitway.Base.Json.{lines}
use gitway.Console.{human}
use gitway.Hosts.{pad}
use gitway.Algorithms.{Catalogue, tag, format_entry, run}

abbrev catalogue : Catalogue
catalogue = record {
  kex = (record { name = "curve25519-sha256"; is_default = true; denylisted = false }) ∷ [];
  cipher = (record { name = "aes128-cbc"; is_default = false; denylisted = false }) ∷ [];
  mac = (record { name = "hmac-md5"; is_default = true; denylisted = true }) ∷ [];
  host_key = [];
}

run_test : run catalogue human ≡ (
  0,
  lines (
      "# KEX" ∷ "curve25519-sha256                            default" ∷ "" ∷ "# Ciphers"
      ∷ "aes128-cbc                                   available" ∷ "" ∷ "# MACs"
      ∷ "hmac-md5                                     denylisted" ∷ "" ∷ "# Host-key algorithms"
      ∷ []),
)
unfolding run format_entry tag pad
run_test = refl
