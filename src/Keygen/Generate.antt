-- ===== src/Keygen/Generate.antt =====
-- `run_generate` of gitway-cli/src/keygen.rs: the key that is generated, written and reported.
use gitway.Base.{
  ap, ℕ, String, ◌≡◌, refl, sym, ◌∙◌, false, Option, some, is_some, [], ◌∷◌, ok, unwrap_or,
  ok-injective,
}
use gitway.Base.Io.{Io, bind-eq-ok, ◌>>=◌, give, lift}
use gitway.Base.Json.{Output, document, fields, string, boolean}
use gitway.Base.Text.{is_empty_text}
use gitway.Console.{OutputMode, json}
use gitway.Errors.{Errors}
use gitway.Keys.{Keys}
use gitway.KeygenShim.Args.{sha256}
use gitway.KeygenShim.Resolve.{parse_kind}
use gitway.Keygen.{
  Printed, GenerateArgs, resolve_kind, default_comment, pub_path_for, resolve_new_passphrase,
  generated, run_generate,
}
use gitway.Keygen.Laws.{
  name_of, kind_of, kind_in, Chosen, resolve_new_passphrase-Chosen, resolve_kind-parse_kind,
}
use gitway.Tools.{KeyType, Tools}

module _ {W : Type 0} (E : Errors) (K : Keys) (T : Tools W E K)
    (prompt : String → Io W E.Error String) where
  -- The comment of the arguments, or the default one.
  abbrev pub comment_of : GenerateArgs → String
  comment_of args = unwrap_or args.comment (default_comment E K T prompt)

  abbrev pub after_passphrase : GenerateArgs → W → W
  after_passphrase args w =
      (resolve_new_passphrase E K T prompt args.file_path args.passphrase args.no_passphrase w).1

  -- A run of `gitway keygen generate` that succeeds.
  pub record Generated (args : GenerateArgs) (mode : OutputMode) (out : Output) (w : W)
      : Type 0 where
    pub kind : KeyType
    pub bits : Option ℕ
    pub passphrase : Option String
    pub key : K.PrivateKey
    pub of_kind : kind_in (parse_kind E K T (name_of args.kind) args.bits) ≡ some kind
    pub protected :
        (p : String)
        → passphrase ≡ some p
        → (args.no_passphrase ≡ false)
          × (is_empty_text p ≡ false)
          × Chosen E K T prompt args.file_path args.passphrase w p
    pub made : (T.generate kind bits (comment_of args) (after_passphrase args w)).0 ≡ ok key
    pub written :
        (T.write_keypair key args.file_path passphrase
          (T.generate kind bits (comment_of args) (after_passphrase args w)).1).0
        ≡ ok tt
    pub state :
        (run_generate E K T prompt args mode w).1
        ≡ (T.write_keypair key args.file_path passphrase
            (T.generate kind bits (comment_of args) (after_passphrase args w)).1).1
    pub reported :
        mode ≡ json
        → out
          ≡ document "gitway keygen generate" (
              fields (
                ("private_key_path", string args.file_path)
                ∷ ("public_key_path", string (pub_path_for args.file_path))
                ∷ ("algorithm", string (T.cli_name kind))
                ∷ ("encrypted", boolean (is_some passphrase))
                ∷ ("fingerprint", string (K.fingerprint (K.public_key key) sha256))
                ∷ ("comment", string (comment_of args))
                ∷ []))

  abbrev reporting :
      GenerateArgs → OutputMode → KeyType → Option String → K.PrivateKey → Io W E.Error Printed
  reporting args mode kind passphrase key = give (
    0,
    generated E K T prompt mode args kind passphrase (K.fingerprint (K.public_key key) sha256)
        (comment_of args),
  )

  abbrev writing :
      GenerateArgs → OutputMode → KeyType → Option String → K.PrivateKey → Io W E.Error Printed
  writing args mode kind passphrase key =
      T.write_keypair key args.file_path passphrase >>= λ _. reporting args mode kind passphrase key

  abbrev generating :
      GenerateArgs → OutputMode → KeyType → Option ℕ → Option String → Io W E.Error Printed
  generating args mode kind bits passphrase =
      T.generate kind bits (comment_of args) >>= λ key. writing args mode kind passphrase key

  abbrev with_kind : GenerateArgs → OutputMode → KeyType → Option ℕ → Io W E.Error Printed
  with_kind args mode kind bits =
      resolve_new_passphrase E K T prompt args.file_path args.passphrase args.no_passphrase
      >>= λ passphrase. generating args mode kind bits passphrase

  reported-json :
      (args : GenerateArgs) (mode : OutputMode) (kind : KeyType) (passphrase : Option String)
      (fingerprint comment : String)
      → mode ≡ json
      → generated E K T prompt mode args kind passphrase fingerprint comment
        ≡ document "gitway keygen generate" (
            fields (
              ("private_key_path", string args.file_path)
              ∷ ("public_key_path", string (pub_path_for args.file_path))
              ∷ ("algorithm", string (T.cli_name kind))
              ∷ ("encrypted", boolean (is_some passphrase))
              ∷ ("fingerprint", string fingerprint)
              ∷ ("comment", string comment)
              ∷ []))
  unfolding generated
  reported-json args mode kind passphrase fingerprint comment in_json = rw in_json refl

  -- `gitway keygen generate` that succeeds has exit code 0. It has generated a key of the kind that
  -- gitway-keygen takes for the same name and bits, with the comment of the arguments or the default one, and
  -- written this key last, under the path of the arguments, with a passphrase only where one was chosen,
  -- not empty and not refused by --no-passphrase; the JSON output reports this key's fingerprint.
  pub run_generate-Generated :
      (args : GenerateArgs) (mode : OutputMode) (code : ℕ) (out : Output) (w : W)
      → (run_generate E K T prompt args mode w).0 ≡ ok (code, out)
      → (code ≡ 0) × Generated args mode out w
  unfolding run_generate
  run_generate-Generated args mode code out w h =
      let ((kind, bits), resolved, second, state1) =
        bind-eq-ok (lift (resolve_kind E K T prompt args.kind args.bits))
          (λ (kind, bits). with_kind args mode kind bits) w h in
      let (passphrase, chosen, third, state2) =
        bind-eq-ok
          (resolve_new_passphrase E K T prompt args.file_path args.passphrase args.no_passphrase)
          (λ passphrase. generating args mode kind bits passphrase) w second in
      let (key, made, fourth, state3) =
        bind-eq-ok (T.generate kind bits (comment_of args))
          (λ key. writing args mode kind passphrase key) _ third in
      let (_, written, last, state4) =
        bind-eq-ok (T.write_keypair key args.file_path passphrase)
          (λ _. reporting args mode kind passphrase key) _ fourth in
      let same = sym (ok-injective last) in
      (
        ap (λ (c, _). c) same,
        record {
          kind = kind;
          bits = bits;
          passphrase = passphrase;
          key = key;
          of_kind =
              sym (resolve_kind-parse_kind E K T prompt args.kind args.bits) ∙ ap kind_of resolved;
          protected = λ p given.
              resolve_new_passphrase-Chosen E K T prompt args.file_path args.passphrase
                args.no_passphrase p w (chosen ∙ ap ok given);
          made = made;
          written = written;
          state = state1 ∙ (state2 ∙ (state3 ∙ state4));
          reported = λ in_json.
              ap (λ (_, o). o) same ∙ reported-json args mode kind passphrase _ _ in_json;
        },
      )
