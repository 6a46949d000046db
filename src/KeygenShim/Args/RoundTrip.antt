-- ===== src/KeygenShim/Args/RoundTrip.antt =====
-- The command lines that ask for a request to gitway-keygen, and what the parser makes of them.
use mathlib.Core.Option
use gitway.Base.{
  ℕ, ◌^◌, String, true, false, ◌≡◌, refl, ap, ◌∙◌, Option, none, some, List, [], ◌∷◌, ok, ◌>>=◌,
  arith,
}
use gitway.Base.Text.{codes, lower_is, has_dash, parse_unsigned}
use gitway.Errors.{Errors}
use gitway.KeygenShim.Args.{
  HashAlg, sha256, sha512, Mode, generate_key, print_fingerprint, extract_public, change_passphrase,
  ssh_sig_sign, ssh_sig_verify, ssh_sig_check_no_validate, ssh_sig_find_principals, Parsed, Scan,
  Valued, initial, scan, from_args, flag_name, Valued, type_value, file_value, new_value, old_value,
  comment_value, namespace_value, identity_value, signature_value, signers_value, set_parsed,
  apply_positional, finish,
}
use gitway.KeygenShim.Args.Tokens.{token-of_no_dash}

-- The flags whose value is kept as it is, and the record after one that may have been left out.
data TextFlag : Type 0 where
  of_type of_file of_new of_old of_comment of_namespace of_identity of_signature of_signers :
      TextFlag

abbrev valued_of : TextFlag → Valued
valued_of of_type = type_value
valued_of of_file = file_value
valued_of of_new = new_value
valued_of of_old = old_value
valued_of of_comment = comment_value
valued_of of_namespace = namespace_value
valued_of of_identity = identity_value
valued_of of_signature = signature_value
valued_of of_signers = signers_value

abbrev get : TextFlag → Parsed → Option String
get of_type p = p.key_type
get of_file p = p.file
get of_new p = p.new_passphrase
get of_old p = p.old_passphrase
get of_comment p = p.comment
get of_namespace p = p.namespace
get of_identity p = p.signer_identity
get of_signature p = p.signature_file
get of_signers p = p.allowed_signers

abbrev put : TextFlag → Option String → Parsed → Parsed
put of_type o p = record p { key_type = o }
put of_file o p = record p { file = o }
put of_new o p = record p { new_passphrase = o }
put of_old o p = record p { old_passphrase = o }
put of_comment o p = record p { comment = o }
put of_namespace o p = record p { namespace = o }
put of_identity o p = record p { signer_identity = o }
put of_signature o p = record p { signature_file = o }
put of_signers o p = record p { allowed_signers = o }

-- A flag with its value, or nothing where the value is absent.
abbrev opt : String → Option String → List String → List String
opt flag none rest = rest
opt flag (some v) rest = flag ∷ v ∷ rest

abbrev action : Mode → List String → List String
action generate_key rest = rest
action print_fingerprint rest = "-l" ∷ rest
action extract_public rest = "-y" ∷ rest
action change_passphrase rest = "-p" ∷ rest
action ssh_sig_sign rest = "-Y" ∷ "sign" ∷ rest
action ssh_sig_verify rest = "-Y" ∷ "verify" ∷ rest
action ssh_sig_check_no_validate rest = "-Y" ∷ "check-novalidate" ∷ rest
action ssh_sig_find_principals rest = "-Y" ∷ "find-principals" ∷ rest

abbrev hash_text : HashAlg → String
hash_text sha256 = "sha256"
hash_text sha512 = "SHA512"

abbrev message : Option String → List String
message none = []
message (some m) = m ∷ []

-- The arguments that ask for `p`, its options in a fixed order and its positional last. `print`
-- writes a number in decimal.
pub command_line : (ℕ → String) → Parsed → List String
command_line print p = opt "-t" p.key_type (
    opt "-b" (Option.map print p.bits) (
      opt "-f" p.file (
        opt "-N" p.new_passphrase (
          opt "-P" p.old_passphrase (
            opt "-C" p.comment (
              opt "-n" p.namespace (
                opt "-I" p.signer_identity (
                  opt "-s" p.signature_file (
                    opt "--allowed-signers" p.allowed_signers (
                      "-E"
                      ∷ hash_text p.fingerprint_hash
                      ∷ action p.mode (message p.message_file)))))))))))

abbrev pub ReadsBack : (ℕ → String) → Option ℕ → Type 0
ReadsBack print none = Unit
ReadsBack print (some n) = parse_unsigned (2 ^ 32) (codes (print n)) ≡ some n

abbrev pub IsPositional : Option String → Type 0
IsPositional none = Unit
IsPositional (some m) = has_dash m ≡ false

module _ (E : Errors) where
  scan-opt :
      (f : TextFlag) (o : Option String) (rest : List String) (s : Scan)
      → get f s.p ≡ none
      → scan E (opt (flag_name (valued_of f)) o rest) none s
        ≡ scan E rest none (set_parsed s (put f o s.p))
  unfolding from_args
  scan-opt of_type none rest s h = λ i. scan E rest none (set_parsed s (put of_type (h i) s.p))
  scan-opt of_type (some v) rest s h = refl
  scan-opt f none rest s h = λ i. scan E rest none (set_parsed s (put f (h i) s.p))
  scan-opt _ (some v) rest s h = refl

  scan-bits :
      (print : ℕ → String) (o : Option ℕ) (rest : List String) (s : Scan)
      → s.bits ≡ none
      → ReadsBack print o
      → scan E (opt "-b" (Option.map print o) rest) none s
        ≡ scan E rest none (set_parsed s (record (s.p) { bits = o }))
  unfolding from_args
  scan-bits print none rest s h r =
      λ i. scan E rest none (set_parsed s (record (s.p) { bits = h i }))
  scan-bits print (some n) rest s h r = rw r

  scan-hash :
      (h : HashAlg) (rest : List String) (s : Scan)
      → scan E ("-E" ∷ hash_text h ∷ rest) none s
        ≡ scan E rest none (set_parsed s (record (s.p) { fingerprint_hash = h }))
  unfolding from_args lower_is
  scan-hash sha256 rest s = refl
  scan-hash sha512 rest s = refl

  scan-message :
      (m : Option String) (s : Scan)
      → IsPositional m
      → s.message_file ≡ none
      → scan E (message m) none s ≡ ok (set_parsed s (record (s.p) { message_file = m }))
  unfolding scan apply_positional
  scan-message none s h e = λ i. ok (set_parsed s (record (s.p) { message_file = e i }))
  scan-message (some m) s h e = ground (arith, token-of_no_dash m h)

  with_values : Parsed → Scan
  with_values p = set_parsed initial (record p { mode = generate_key; message_file = none })

  scan-values :
      (print : ℕ → String) (p : Parsed)
      → ReadsBack print p.bits
      → scan E (command_line print p) none initial
        ≡ scan E (action p.mode (message p.message_file)) none (with_values p)
  unfolding command_line with_values
  scan-values print p r =
      scan-opt of_type p.key_type _ _ refl
      ∙ scan-bits print p.bits _ _ refl r
      ∙ scan-opt of_file p.file _ _ refl
      ∙ scan-opt of_new p.new_passphrase _ _ refl
      ∙ scan-opt of_old p.old_passphrase _ _ refl
      ∙ scan-opt of_comment p.comment _ _ refl
      ∙ scan-opt of_namespace p.namespace _ _ refl
      ∙ scan-opt of_identity p.signer_identity _ _ refl
      ∙ scan-opt of_signature p.signature_file _ _ refl
      ∙ scan-opt of_signers p.allowed_signers _ _ refl
      ∙ scan-hash p.fingerprint_hash _ _

  scan-action :
      (m : Mode) (o : Option String) (s : Scan)
      → IsPositional o
      → s.message_file ≡ none
      → (s.sshsig_op ≡ none)
      → (s.saw_list ≡ false)
      → (s.saw_extract ≡ false)
      → (s.saw_change ≡ false)
      → (scan E (action m (message o)) none s >>= finish E)
        ≡ ok (record (s.p) { mode = m; message_file = o })
  unfolding from_args
  scan-action generate_key o s h e a b c d = rw (scan-message o s h e) (ground arith)
  scan-action print_fingerprint o s h e a b c d =
      rw (scan-message o (record s { saw_list = true }) h e) (ground arith)
  scan-action extract_public o s h e a b c d =
      rw (scan-message o (record s { saw_extract = true }) h e) (ground arith)
  scan-action change_passphrase o s h e a b c d =
      rw (scan-message o (record s { saw_change = true }) h e) (ground arith)
  scan-action ssh_sig_sign o s h e a b c d =
      rw (scan-message o (record s { sshsig_op = some "sign" }) h e)
  scan-action ssh_sig_verify o s h e a b c d =
      rw (scan-message o (record s { sshsig_op = some "verify" }) h e)
  scan-action ssh_sig_check_no_validate o s h e a b c d =
      rw (scan-message o (record s { sshsig_op = some "check-novalidate" }) h e)
  scan-action ssh_sig_find_principals o s h e a b c d =
      rw (scan-message o (record s { sshsig_op = some "find-principals" }) h e)

  -- Every combination of options is read back from the arguments that ask for it: all value
  -- flags present or absent, each of the eight modes, and a positional file that does not begin
  -- with a dash. `print` is any way to write the `-b` number that parses back to it.
  pub from_args-command_line :
      (print : ℕ → String) (p : Parsed)
      → ReadsBack print p.bits
      → IsPositional p.message_file
      → from_args E (command_line print p) ≡ ok p
  unfolding from_args
  from_args-command_line print p r h =
      ap (λ t. t >>= finish E) (scan-values print p r)
      ∙ unfold with_values in
        scan-action p.mode p.message_file (with_values p) h refl refl refl refl refl
