-- ===== src/Console/Laws.antt =====
-- Laws of the `[user@]host` argument of gitway-cli/src/main.rs.
use Prim.Native.Char.{code}
use text.Mathlib.TextLemmas.{nil-append, cons-append}
use gitway.Base.{String, ◌<>◌, ◌≡◌, ◌≢◌, refl, false, none, some, nat_eq}
use gitway.Base.Text.{is_empty_text, split_once_at}
use gitway.Console.{parse_user_host}

-- A text without `@`.
abbrev pub NoAt : String → Type 0
NoAt String.[] = Unit
NoAt (String.◌∷◌ c s) = (nat_eq (code c) b'@' ≡ false) × NoAt s

split_once_at-at : (host : String) → split_once_at ("@" <> host) ≡ some ("", host)
unfolding split_once_at
split_once_at-at host = rw (cons-append, nil-append) refl

split_once_at-append :
    (user host : String) → NoAt user → split_once_at (user <> "@" <> host) ≡ some (user, host)
unfolding split_once_at
split_once_at-append String.[] host h = rw (nil-append, cons-append, nil-append) refl
split_once_at-append (String.◌∷◌ c s) host (n, h) =
    rw (cons-append, n, split_once_at-append s host h) refl

split_once_at-eq-none : (raw : String) → NoAt raw → split_once_at raw ≡ none
unfolding split_once_at
split_once_at-eq-none String.[] h = refl
split_once_at-eq-none (String.◌∷◌ c s) (n, h) = rw (n, split_once_at-eq-none s h) refl

non_empty : (user : String) → user ≢ "" → is_empty_text user ≡ false
non_empty String.[] h = absurd (h refl)
non_empty (String.◌∷◌ c s) h = refl

-- A user without `@` and a host of any spelling are read back from `user@host`, where the user is
-- not empty; an empty user before the `@` is no user; and a text without `@` is the host.
pub parse_user_host-roundtrip :
    (user host : String)
    → NoAt user
    → (user ≢ "" → parse_user_host (user <> "@" <> host) ≡ (some user, host))
      × (parse_user_host ("@" <> host) ≡ (none, host))
      × (parse_user_host user ≡ (none, user))
unfolding parse_user_host
parse_user_host-roundtrip user host h = (
  λ given. rw (split_once_at-append user host h, non_empty user given) refl,
  rw (split_once_at-at host) refl,
  rw (split_once_at-eq-none user h) refl,
)
