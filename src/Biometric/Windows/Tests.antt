-- ===== src/Biometric/Windows/Tests.antt =====
-- A Credential Locker in memory, and a user whom Windows Hello verifies.
use gitway.Base.{suc, String, refl, true, false, Option, none, some, [], ◌∷◌, Result, ok, err}
use gitway.Base.Text.{lookup, strip_prefix}
use gitway.Biometric.Entries.{Entries, held, without}
use gitway.Biometric.Ids.{fingerprint_of}
use gitway.Biometric.Windows.{WinError, Locker, Hello, verified, retrieve}
use gitway.Biometric.Windows.Consented.{Consented, retrieve-Consented}

abbrev not_found : WinError
not_found = record { is_not_found = true; shown = "element not found" }

abbrev duplicate : WinError
duplicate = record { is_not_found = false; shown = "the entry exists" }

abbrev located : String → Option String → Result WinError (String × String)
located a none = err not_found
located a (some p) = ok (a, p)

-- A second entry for a user name is refused.
abbrev added : String × String → Option String → Entries → Result WinError (Unit {0}) × Entries
added (a, p) none (entries, n) = (ok tt, ((a, p) ∷ entries, n))
added (a, p) (some q) w = (err duplicate, w)

abbrev locker : Locker Entries
locker = record {
  Credential = String × String;
  open_locker = λ w. (ok tt, w);
  find = λ a w. (located a (held w a), w);
  remove = λ c w. (ok tt, (without (c.0) (w.0), w.1));
  create = λ a p. ok (a, p);
  add = λ c w. added c (held w (c.0)) w;
  password = λ c. ok c.1;
  find_all = λ w. (ok (w.0), w);
  user_name = λ c. ok c.0;
}

abbrev hello : Hello Entries
hello = record {
  Operation = String;
  check_availability = λ w. ok true;
  request = λ text w. (ok text, (w.0, suc w.1));
  result = λ o w. (ok verified, w);
}

abbrev with_secret : Entries
with_secret = (("SHA256:a", "secret") ∷ [], 0)

retrieve-Consented_example : Consented locker hello "gitway:ssh:SHA256:a" "secret" with_secret
unfolding retrieve fingerprint_of strip_prefix lookup
retrieve-Consented_example =
    retrieve-Consented locker hello "gitway:ssh:SHA256:a" "secret" with_secret refl
