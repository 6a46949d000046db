-- ===== src/AddShim/Run/Tests.antt =====
-- gitway-add at an agent that holds one key.
use gitway.Base.{◌≡◌, refl, false, none, [], ◌∷◌, map, ok, err}
use gitway.Samples.{text_errors, full_host, sample_keys, Memory, memory_vault, empty_memory}
use gitway.Biometric.Vault.{auto}
use gitway.AddShim.Run.{Agent, Console, add_all, run}
use gitway.AddShim.Run.Loaded.{already, Held, add_all-already}

abbrev agent : Agent Memory text_errors sample_keys
agent = record {
  from_env = λ w. (ok tt, w);
  list = λ w. (ok (("secret", "me@host") ∷ []), w);
  add = λ key lifetime confirm w. (err "agent is locked", w);
  remove = λ key w. (ok tt, w);
  remove_all = λ w. (ok tt, w);
  lock = λ p w. (ok tt, w);
  unlock = λ p w. (ok tt, w);
}

abbrev console : Console Memory text_errors
console = record {
  trim = λ text. text;
  read_to_string = λ path w. ok "secret";
  prompt_passphrase = λ path w. (err "no terminal", w);
  prompt_password = λ text w. (err "no terminal", w);
}

help_first :
    run text_errors sample_keys agent console
      (memory_vault [])
      full_host
      ("usage" ∷ [])
      ("-Z" ∷ "--help" ∷ [])
      empty_memory
    ≡ (ok (0, "usage" ∷ []), empty_memory)
unfolding run
help_first = refl

secret-Held :
    Held text_errors sample_keys agent console
      (memory_vault [])
      none
      false
      auto
      (("secret", "me@host") ∷ [])
      empty_memory
      "id_ed25519"
secret-Held = record { pem = "secret"; key = "secret"; reads = refl; parses = refl; is_held = refl }

add_all-already_example :
    add_all text_errors sample_keys agent console
      (memory_vault [])
      ("id_ed25519" ∷ [])
      none
      false
      auto
      empty_memory
    ≡ (ok (0, map already ("id_ed25519" ∷ [])), empty_memory)
add_all-already_example =
    add_all-already text_errors sample_keys agent console (memory_vault []) none false auto
      ("id_ed25519" ∷ []) (("secret", "me@host") ∷ []) empty_memory refl refl (secret-Held, tt)
