-- ===== src/Keygen/Tests.antt =====
-- The passphrase for a new key at the machine of the tests.
use gitway.Base.{ℕ, String, ◌≡◌, refl, false, none, some, [], ok}
use gitway.Base.Io.{Io}
use gitway.Base.Text.{is_empty_text}
use gitway.Samples.{text_errors}
use gitway.Tools.Sample.{one_key, desk}
use gitway.Base.Json.{lines}
use gitway.Console.{human}
use gitway.Keygen.{GenerateArgs, alg_ed25519, resolve_new_passphrase, run_generate}
use gitway.Keygen.Generate.{Generated, run_generate-Generated}
use gitway.Keygen.Laws.{Chosen, resolve_new_passphrase-Chosen}

abbrev no_prompt : String → Io String String String
no_prompt path w = (ok "other", w)

resolve_new_passphrase-Chosen_example :
    (false ≡ false)
    × (is_empty_text "secret" ≡ false)
    × Chosen text_errors one_key desk no_prompt "/home/u/.ssh/id" none "" "secret"
unfolding resolve_new_passphrase
resolve_new_passphrase-Chosen_example =
    resolve_new_passphrase-Chosen text_errors one_key desk no_prompt "/home/u/.ssh/id" none false
      "secret" "" refl

abbrev generate_args : GenerateArgs
generate_args = record {
  kind = alg_ed25519;
  bits = none;
  file_path = "/home/u/.ssh/id";
  passphrase = some "secret";
  no_passphrase = false;
  comment = some "me";
}

run_generate-Generated_example :
    (◌≡◌ {A = ℕ} 0 0)
    × Generated text_errors one_key desk no_prompt generate_args human (lines []) ""
unfolding run_generate resolve_new_passphrase
run_generate-Generated_example =
    run_generate-Generated text_errors one_key desk no_prompt generate_args human 0 (lines []) ""
      refl
