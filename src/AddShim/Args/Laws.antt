-- ===== src/AddShim/Args/Laws.antt =====
-- What the parser of gitway-add makes of its command lines.
use gitway.Base.{
  is_empty, sym, if◌then◌else◌, String, false, ◌≡◌, ◌≢◌, refl, Option, none, some, List, [], ◌∷◌,
  ◌++◌, Result, ok, err, >>=-eq-ok, arith, All,
}
use gitway.Base.Text.{has_dash, lookup, lookup-eq-none}
use gitway.Errors.{Errors}
use gitway.Host.{Host}
use gitway.AddShim.Args.{
  Mode, add, Parsed, Scan, ModeFlag, Valued, Switch, Token, mode_flag, valued, switch, end_mark,
  unsupported, positional, arms, token, mode_name, mode_of, apply_switch, initial, apply_mode,
  apply_value, scan, from_args, finish, default_key_paths, ignored_switch, delete_value, keep_if,
  lifetime_value, hash_value, confirm_switch,
}

-- A text that does not begin with a dash is a file.
pub token-of_no_dash : (a : String) → has_dash a ≡ false → token a ≡ positional
unfolding token
token-of_no_dash a h = rw (lookup-eq-none has_dash a arms (ground arith), h)

token-mode_name : (m : ModeFlag) → token (mode_name m) ≡ mode_flag m
unfolding token lookup
token-mode_name ModeFlag.list_short = refl
token-mode_name _ = refl

module _ (E : Errors) where
  apply_switch-mode : (w : Switch) (s : Scan) → (apply_switch w s).mode ≡ s.mode
  unfolding apply_switch
  apply_switch-mode confirm_switch s = refl
  apply_switch-mode _ s = refl

  apply_value-mode :
      (f : Valued) (v : String) (s : Scan) {t : Scan} {m : Mode}
      → s.mode ≡ some m
      → apply_value E f v s ≡ ok t
      → t.mode ≡ some m
  unfolding apply_value
  apply_value-mode delete_value v s h e = ground arith
  apply_value-mode lifetime_value v s h e = ground arith
  apply_value-mode hash_value v s h e = ground arith

  abbrev Keeps : Mode → List String → Scan → Type 0
  Keeps m xs t =
      (w : Option Valued) (u : Scan) → u.mode ≡ some m → scan E xs w u ≡ ok t → t.mode ≡ some m

  round-Keeps :
      (a : String) (xs : List String) (s : Scan) (k : Token) {t : Scan} {m : Mode}
      → Keeps m xs t
      → token a ≡ k
      → s.mode ≡ some m
      → scan E (a ∷ xs) none s ≡ ok t
      → t.mode ≡ some m
  unfolding scan
  round-Keeps a xs s (mode_flag f) ih e h p = unfold apply_mode in ground arith
  round-Keeps a xs s (valued f) ih e h p = ground (arith, ih (some f) s)
  round-Keeps a xs s (switch w) ih e h p =
      ground (arith, ih none (apply_switch w s), apply_switch-mode w s)
  round-Keeps a xs s end_mark ih e h p = ground arith
  round-Keeps a xs s unsupported ih e h p = ground arith
  round-Keeps a xs s positional ih e h p =
      ground (arith, ih none (record s { paths = s.paths ++ a ∷ [] }))

  scan-keeps :
      (xs : List String) (w : Option Valued) (s : Scan) {t : Scan} {m : Mode}
      → s.mode ≡ some m
      → scan E xs w s ≡ ok t
      → t.mode ≡ some m
  unfolding scan
  scan-keeps [] none s h p = ground arith
  scan-keeps [] (some f) s h p = cc
  scan-keeps (a ∷ xs) none s {t} h p =
      round-Keeps a xs s (token a) (λ w u. scan-keeps xs w u {t = t}) refl h p
  scan-keeps (v ∷ xs) (some f) s h p =
      let (u, q, r) = >>=-eq-ok (apply_value E f v s) (λ u. scan E xs none u) p in
      scan-keeps xs none u (apply_value-mode f v s h q) r

  module _ (host : Host) where
    finish-mode :
        (s : Scan) {p : Parsed} {m : Mode} → s.mode ≡ some m → finish E host s ≡ ok p → p.mode ≡ m
    unfolding finish
    finish-mode s h e = ground arith

    -- A command line that begins with a mode flag and is accepted has that mode, whatever
    -- follows: a second mode flag, `-d` among them, is refused, and files do not change it.
    pub from_args-mode_name :
        (f : ModeFlag) (args : List String) (p : Parsed)
        → from_args E host (mode_name f ∷ args) ≡ ok p
        → p.mode ≡ mode_of f
    unfolding from_args
    from_args-mode_name f args p h =
        let (s, q, r) = >>=-eq-ok (scan E (mode_name f ∷ args) none initial) (finish E host) h in
        finish-mode s (scan-keeps args none begun refl (starts f q)) r
      where
        begun : Scan
        begun = record initial { mode = some (mode_of f) }

        starts :
            (f : ModeFlag) {s : Scan}
            → scan E (mode_name f ∷ args) none initial ≡ ok s
            → scan E args none (record initial { mode = some (mode_of f) }) ≡ ok s
        starts ModeFlag.list_short q = q
        starts _ q = q

    -- The names of the files that are tried, in their order.
    abbrev pub default_files : String → List String
    default_files home =
        host.join (host.join home ".ssh") "id_ed25519"
        ∷ host.join (host.join home ".ssh") "id_ecdsa"
        ∷ host.join (host.join home ".ssh") "id_rsa"
        ∷ []

    default_key_paths-files :
        (paths : List String)
        → default_key_paths E host ≡ ok paths
        → (home : String) × (host.home_dir ≡ some home)
          × (paths ≡ keep_if host.exists (default_files home))
          × (paths ≢ [])
    unfolding default_key_paths
    default_key_paths-files paths h = at_home host.home_dir refl
      where
        found :
            (kept : List String)
            → (if is_empty kept then err E.no_key_found else ok kept) ≡ ok paths
            → (paths ≡ kept) × (paths ≢ [])
        found [] q = cc
        found (k ∷ kept) q = let same : k ∷ kept ≡ paths = cc in (sym same, λ e. cc)

        at_home :
            (o : Option String)
            → host.home_dir ≡ o
            → (home : String) × (host.home_dir ≡ some home)
              × (paths ≡ keep_if host.exists (default_files home))
              × (paths ≢ [])
        at_home none e = cc (rw e at h)
        at_home (some home) e =
            let (kept, some_found) = found (keep_if host.exists (default_files home)) (rw e at h) in
            (home, e, kept, some_found)

    scan-of_ignored :
        (args : List String) (s : Scan)
        → All (λ a. token a ≡ switch ignored_switch) args
        → scan E args none s ≡ ok s
    unfolding scan apply_switch
    scan-of_ignored [] s h = refl
    scan-of_ignored (a ∷ args) s (e, h) = ground (arith, scan-of_ignored args s h)

    -- With no mode flag and no file, only flags that the shim ignores, gitway-add does not list
    -- the agent's keys: it adds those of id_ed25519, id_ecdsa and id_rsa in the folder .ssh of the home
    -- directory that exist, in this order, and at least one.
    pub from_args-default :
        (args : List String) (p : Parsed)
        → All (λ a. token a ≡ switch ignored_switch) args
        → from_args E host args ≡ ok p
        → (paths : List String) × (p.mode ≡ add paths)
          × (home : String) × (host.home_dir ≡ some home)
          × (paths ≡ keep_if host.exists (default_files home))
          × (paths ≢ [])
    unfolding from_args
    from_args-default args p i h = added (default_key_paths E host) refl
      where
        begun : finish E host initial ≡ ok p
        begun = rw (scan-of_ignored args initial i) at h

        added :
            (r : Result E.Error (List String))
            → default_key_paths E host ≡ r
            → (paths : List String) × (p.mode ≡ add paths)
              × (home : String) × (host.home_dir ≡ some home)
              × (paths ≡ keep_if host.exists (default_files home))
              × (paths ≢ [])
        added (err e) q = cc (begun, q)
        added (ok paths) q =
            let (home, at_home, kept, some_found) = default_key_paths-files paths q in
            (paths, ground (arith, begun, q), home, at_home, kept, some_found)
