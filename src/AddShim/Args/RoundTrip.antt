-- ===== src/AddShim/Args/RoundTrip.antt =====
-- The command lines that ask for a request to gitway-add, and what the parser makes of them.
use mathlib.Core.Option
use gitway.Base.{
  ℕ, ◌^◌, String, Bool, true, false, ◌&&◌, ◌≡◌, ◌≢◌, refl, ap, ◌∙◌, Option, none, some, List, [],
  ◌∷◌, ok, ◌>>=◌, arith,
}
use gitway.Base.Text.{codes, lower_is, parse_unsigned}
use gitway.Errors.{Errors}
use gitway.Host.{Host}
use gitway.KeygenShim.Args.{HashAlg, sha256, sha512}
use gitway.AddShim.Args.{
  Mode, list, remove_one, remove_all, lock, unlock, add, Parsed, Scan, initial, scan, from_args,
  finish,
}

abbrev flag : Bool → String → List String → List String
flag true name rest = name ∷ rest
flag false name rest = rest

abbrev lifetime_flag : Option String → List String → List String
lifetime_flag none rest = rest
lifetime_flag (some t) rest = "-t" ∷ t ∷ rest

abbrev hash_text : HashAlg → String
hash_text sha256 = "SHA256"
hash_text sha512 = "sha512"

abbrev mode_args : Mode → List String
mode_args (list false) = "-l" ∷ []
mode_args (list true) = "-L" ∷ []
mode_args (remove_one path) = "-d" ∷ path ∷ []
mode_args remove_all = "-D" ∷ []
mode_args lock = "-x" ∷ []
mode_args unlock = "-X" ∷ []
mode_args (add paths) = "--" ∷ paths

-- The arguments that ask for `p`: its options, then its mode.
pub request_line : (ℕ → String) → Parsed → List String
request_line print p = lifetime_flag (Option.map print p.lifetime) (
    "-E"
    ∷ hash_text p.hash
    ∷ flag p.confirm "-c"
        (flag p.biometric "--biometric" (flag p.no_biometric "--no-biometric" (mode_args p.mode))))

abbrev pub ReadsBack : (ℕ → String) → Option ℕ → Type 0
ReadsBack print none = Unit
ReadsBack print (some n) = parse_unsigned (2 ^ 64) (codes (print n)) ≡ some n

abbrev pub AddsSome : Mode → Type 0
AddsSome (add paths) = paths ≢ []
AddsSome _ = Unit

module _ (E : Errors) where
  scan-lifetime :
      (print : ℕ → String) (o : Option ℕ) (rest : List String)
      → ReadsBack print o
      → scan E (lifetime_flag (Option.map print o) rest) none initial
        ≡ scan E rest none (record initial { lifetime = o })
  unfolding from_args
  scan-lifetime print none rest r = refl
  scan-lifetime print (some n) rest r = rw r

  scan-hash :
      (h : HashAlg) (rest : List String) (s : Scan)
      → scan E ("-E" ∷ hash_text h ∷ rest) none s ≡ scan E rest none (record s { hash = h })
  unfolding from_args lower_is
  scan-hash sha256 rest s = refl
  scan-hash sha512 rest s = refl

  scan-flags :
      (c b d : Bool) (rest : List String) (s : Scan)
      → s.confirm ≡ false
      → s.biometric ≡ false
      → s.no_biometric ≡ false
      → scan E (flag c "-c" (flag b "--biometric" (flag d "--no-biometric" rest))) none s
        ≡ scan E rest none (record s { confirm = c; biometric = b; no_biometric = d })
  unfolding from_args
  scan-flags true b d rest s e f g = ground arith
  scan-flags false b d rest s e f g = ground arith

  with_values : Parsed → Scan
  with_values p = record {
    mode = none;
    hash = p.hash;
    lifetime = p.lifetime;
    confirm = p.confirm;
    biometric = p.biometric;
    no_biometric = p.no_biometric;
    paths = [];
  }

  scan-values :
      (print : ℕ → String) (p : Parsed)
      → ReadsBack print p.lifetime
      → scan E (request_line print p) none initial ≡ scan E (mode_args p.mode) none (with_values p)
  unfolding request_line with_values
  scan-values print p r =
      scan-lifetime print p.lifetime _ r
      ∙ scan-hash p.hash _ _
      ∙ scan-flags p.confirm p.biometric p.no_biometric _ _ refl refl refl

  module _ (host : Host) where
    finish-mode_args :
        (m : Mode) (s : Scan)
        → s.mode ≡ none
        → s.paths ≡ []
        → AddsSome m
        → (s.biometric && s.no_biometric) ≡ false
        → (scan E (mode_args m) none s >>= finish E host)
          ≡ ok (record {
            mode = m;
            hash = s.hash;
            lifetime = s.lifetime;
            confirm = s.confirm;
            biometric = s.biometric;
            no_biometric = s.no_biometric;
          })
    unfolding from_args
    finish-mode_args (list false) s e f a b = ground arith
    finish-mode_args (list true) s e f a b = ground arith
    finish-mode_args (remove_one path) s e f a b = ground arith
    finish-mode_args remove_all s e f a b = ground arith
    finish-mode_args lock s e f a b = ground arith
    finish-mode_args unlock s e f a b = ground arith
    finish-mode_args (add []) s e f a b = absurd (a refl)
    finish-mode_args (add (path ∷ paths)) s e f a b = ground arith

    -- Every request is read back from its command line: any mode, hash, lifetime and switches,
    -- with the file of `-d` and the files to add of any spelling. The two biometric switches are
    -- not both set, files to add are not absent, and `print` writes the lifetime so that it
    -- parses back.
    pub from_args-request_line :
        (print : ℕ → String) (p : Parsed)
        → ReadsBack print p.lifetime
        → AddsSome p.mode
        → (p.biometric && p.no_biometric) ≡ false
        → from_args E host (request_line print p) ≡ ok p
    unfolding from_args with_values
    from_args-request_line print p r a b =
        ap (λ t. t >>= finish E host) (scan-values print p r)
        ∙ finish-mode_args p.mode (with_values p) refl refl a b
