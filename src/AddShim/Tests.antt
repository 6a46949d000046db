-- ===== src/AddShim/Tests.antt =====
-- Runs of gitway-add's parser, and its theorems at concrete command lines.
use gitway.Base.{ℕ, String, ◌≡◌, ◌≢◌, refl, true, false, none, some, List, [], ◌∷◌, ok, keep_if}
use gitway.Base.Text.{parse_unsigned}
use gitway.Samples.{text_errors, full_host}
use gitway.KeygenShim.Args.{sha256}
use gitway.AddShim.Args.{Mode, list, add, Parsed, list_full, from_args}
use gitway.AddShim.Args.Laws.{default_files, from_args-mode_name, from_args-default}
use gitway.AddShim.Args.RoundTrip.{request_line, from_args-request_line}

abbrev adding : Parsed
adding = record {
  mode = add ("-odd" ∷ "--" ∷ []);
  hash = sha256;
  lifetime = some 3600;
  confirm = true;
  biometric = false;
  no_biometric = true;
}

abbrev print : ℕ → String
print n = "3600"

from_args-request_line_example :
    from_args text_errors full_host (request_line print adding) ≡ ok adding
unfolding parse_unsigned
from_args-request_line_example =
    from_args-request_line text_errors full_host print adding refl (λ h. cc) refl

abbrev listing : Parsed
listing = record {
  mode = list true;
  hash = sha256;
  lifetime = none;
  confirm = false;
  biometric = true;
  no_biometric = false;
}

from_args-mode_name_example : ◌≡◌ {A = Mode} listing.mode (list true)
unfolding from_args
from_args-mode_name_example =
    from_args-mode_name text_errors full_host list_full ("--biometric" ∷ "file" ∷ []) listing refl

abbrev defaults : Parsed
defaults = record {
  mode = add ("/home/u" ∷ "/home/u" ∷ "/home/u" ∷ []);
  hash = sha256;
  lifetime = none;
  confirm = false;
  biometric = false;
  no_biometric = false;
}

from_args-default_example :
    (paths : List String) × (defaults.mode ≡ add paths)
    × (home : String) × (full_host.home_dir ≡ some home)
    × (paths ≡ keep_if full_host.exists (default_files text_errors full_host home))
    × (paths ≢ [])
unfolding from_args
from_args-default_example =
    from_args-default text_errors full_host ("-q" ∷ []) defaults (refl, tt) refl
