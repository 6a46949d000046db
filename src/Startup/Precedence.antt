-- ===== src/Startup/Precedence.antt =====
-- The precedence of `run` of gitway-cli/src/main.rs: a flag, then the user of the argument, then
-- ssh_config, then the builder's default.
use gitway.Base.{
  ap, ℕ, String, ◌≡◌, refl, ◌∙◌, Bool, true, false, Option, none, some, List, [], ◌∷◌, ◌++◌, Result,
  ok, err, >>=-eq-ok, ◌>>=◌, or_else, unwrap_or, ok-injective,
}
use gitway.Session.{Ssh}
use gitway.Startup.{
  Cli, Setting, port, no_host_key_checking, username, identity_file, cert_file, kex, ciphers, macs,
  host_keys, connect_timeout, connection_attempts, max_retry_window, Category, kex_category,
  cipher_category, mac_category, host_key_category, Builders, setting_if, setting_when, overriding,
  apply_alg_override, algorithm_settings, first_settings, last_settings, apply, base, configure,
}

-- Which setting gives a value: the user name, the port, and the algorithms for the key exchange.
abbrev pub as_username : Setting → Option String
as_username (username u) = some u
as_username _ = none

abbrev pub as_port : Setting → Option ℕ
as_port (port n) = some n
as_port _ = none

abbrev pub as_timeout : Setting → Option ℕ
as_timeout (connect_timeout n) = some n
as_timeout _ = none

module _ {W : Type 0} (S : Ssh W) (B : Builders S) where
  -- A value of the builder that the settings selected by `value` set and the others leave alone.
  pub record IsField {X : Type 0} (get : B.Builder → X) (value : Setting → Option X) : Type 0 where
    pub sets : (s : Setting) (x : X) (b : B.Builder) → value s ≡ some x → get (B.set s b) ≡ x
    pub keeps : (s : Setting) (b : B.Builder) → value s ≡ none → get (B.set s b) ≡ get b

  module _ {X : Type 0} {get : B.Builder → X} {value : Setting → Option X}
      (laws : IsField get value) where
    -- The last value that is set wins.
    abbrev last : List Setting → X → X
    last [] x = x
    last (s ∷ settings) x = last settings (unwrap_or (value s) x)

    get-set :
        (s : Setting) (b : B.Builder) (o : Option X)
        → value s ≡ o
        → get (B.set s b) ≡ unwrap_or o (get b)
    get-set s b none e = laws.keeps s b e
    get-set s b (some x) e = laws.sets s x b e

    get-apply :
        (settings : List Setting) (b : B.Builder)
        → get (apply S B settings b) ≡ last settings (get b)
    unfolding apply
    get-apply [] b = refl
    get-apply (s ∷ settings) b =
        get-apply settings (B.set s b) ∙ ap (last settings) (get-set s b (value s) refl)

    last-append : (xs ys : List Setting) (x : X) → last (xs ++ ys) x ≡ last ys (last xs x)
    last-append [] ys x = refl
    last-append (s ∷ xs) ys x = last-append xs ys (unwrap_or (value s) x)

    last-other :
        {A : Type 0} (f : A → Setting) (o : Option A) (x : X)
        → ((a : A) → value (f a) ≡ none)
        → last (setting_if f o) x ≡ x
    last-other f none x silent = refl
    last-other f (some a) x silent = rw (silent a) refl

    last-own :
        (f : X → Setting) (o : Option X) (x : X)
        → ((a : X) → value (f a) ≡ some a)
        → last (setting_if f o) x ≡ unwrap_or o x
    last-own f none x speaks = refl
    last-own f (some a) x speaks = rw (speaks a) refl

    last-when : (b : Bool) (s : Setting) (x : X) → value s ≡ none → last (setting_when b s) x ≡ x
    last-when true s x silent = rw silent refl
    last-when false s x silent = refl

    last-resolved :
        (setter : List String → Setting) (r : Result S.Error (List String)) (x : X)
        {settings : List Setting}
        → ((l : List String) → value (setter l) ≡ none)
        → overriding S B setter r ≡ ok settings
        → last settings x ≡ x
    unfolding overriding
    last-resolved setter (ok algorithms) x silent h =
        rw⁻¹ (ok-injective h) (rw (silent algorithms) refl)
    last-resolved setter (err e) x silent h = cc

    last-override :
        (category : Category) (setter : List String → Setting) (o : Option String) (x : X)
        {settings : List Setting}
        → ((l : List String) → value (setter l) ≡ none)
        → apply_alg_override S B category setter o ≡ ok settings
        → last settings x ≡ x
    unfolding apply_alg_override
    last-override category setter none x silent h = rw⁻¹ (ok-injective h) refl
    last-override category setter (some v) x silent h =
        last-resolved setter (B.apply_overrides category (B.defaults category) v) x silent h

    -- The overrides set nothing else.
    last-algorithms :
        (cli : Cli) (x : X) {settings : List Setting}
        → ((l : List String) → value (kex l) ≡ none)
        → ((l : List String) → value (ciphers l) ≡ none)
        → ((l : List String) → value (macs l) ≡ none)
        → ((l : List String) → value (host_keys l) ≡ none)
        → algorithm_settings S B cli ≡ ok settings
        → last settings x ≡ x
    unfolding algorithm_settings
    last-algorithms cli x {settings} q1 q2 q3 q4 h =
        let (a, first, second) =
          >>=-eq-ok (apply_alg_override S B kex_category kex cli.kex)
            (λ a. apply_alg_override S B cipher_category ciphers cli.ciphers >>= λ b.
              apply_alg_override S B mac_category macs cli.macs >>= λ c.
              apply_alg_override S B host_key_category host_keys cli.host_key_algorithms >>= λ d.
              ok (a ++ (b ++ (c ++ d))))
            h in
        let (b, second, third) =
          >>=-eq-ok (apply_alg_override S B cipher_category ciphers cli.ciphers)
            (λ b. apply_alg_override S B mac_category macs cli.macs >>= λ c.
              apply_alg_override S B host_key_category host_keys cli.host_key_algorithms >>= λ d.
              ok (a ++ (b ++ (c ++ d))))
            second in
        let (c, third, fourth) =
          >>=-eq-ok (apply_alg_override S B mac_category macs cli.macs)
            (λ c.
              apply_alg_override S B host_key_category host_keys cli.host_key_algorithms >>= λ d.
              ok (a ++ (b ++ (c ++ d))))
            third in
        let (d, fourth, joined) =
          >>=-eq-ok (apply_alg_override S B host_key_category host_keys cli.host_key_algorithms)
            (λ d. ok (a ++ (b ++ (c ++ d)))) fourth in
        rw⁻¹ (ok-injective joined) (
          rw
            (
              last-append a (b ++ (c ++ d)) x,
              last-override kex_category kex cli.kex x q1 first,
              last-append b (c ++ d) x,
              last-override cipher_category ciphers cli.ciphers x q2 second,
              last-append c d x,
              last-override mac_category macs cli.macs x q3 third,
              last-override host_key_category host_keys cli.host_key_algorithms x q4 fourth,
            )
            refl)

  module _ (cli : Cli) (parsed : Option String) (algorithms : List Setting) where
    abbrev all_settings : List Setting
    all_settings = first_settings S B cli parsed ++ (algorithms ++ last_settings S B cli)

  last-user :
      {get : B.Builder → String} (l : IsField get as_username) (cli : Cli) (parsed : Option String)
      (algorithms : List Setting) (x : String)
      → algorithm_settings S B cli ≡ ok algorithms
      → last l (all_settings cli parsed algorithms) x ≡ unwrap_or (or_else cli.user parsed) x
  unfolding first_settings last_settings
  last-user l cli parsed algorithms x given =
      rw
        (
          last-append l (first_settings S B cli parsed) (algorithms ++ last_settings S B cli) x,
          last-append l algorithms (last_settings S B cli),
          last-append l (setting_if port cli.port),
          last-other l port cli.port _ (λ a. refl),
          last-append l (setting_when cli.insecure_skip_host_check no_host_key_checking),
          last-when l cli.insecure_skip_host_check no_host_key_checking _ refl,
          last-append l (setting_if username (or_else cli.user parsed)),
          last-own l username (or_else cli.user parsed) _ (λ a. refl),
          last-append l (setting_if identity_file cli.identity),
          last-other l identity_file cli.identity _ (λ a. refl),
          last-other l cert_file cli.cert _ (λ a. refl),
          last-algorithms l cli _ (λ a. refl) (λ a. refl) (λ a. refl) (λ a. refl) given,
          last-append l (setting_if connect_timeout cli.connect_timeout),
          last-other l connect_timeout cli.connect_timeout _ (λ a. refl),
          last-append l (setting_if connection_attempts cli.attempts),
          last-other l connection_attempts cli.attempts _ (λ a. refl),
          last-other l max_retry_window cli.max_retry_window _ (λ a. refl),
        )
        refl

  last-port :
      {get : B.Builder → ℕ} (l : IsField get as_port) (cli : Cli) (parsed : Option String)
      (algorithms : List Setting) (x : ℕ)
      → algorithm_settings S B cli ≡ ok algorithms
      → last l (all_settings cli parsed algorithms) x ≡ unwrap_or cli.port x
  unfolding first_settings last_settings
  last-port l cli parsed algorithms x given =
      rw
        (
          last-append l (first_settings S B cli parsed) (algorithms ++ last_settings S B cli) x,
          last-append l algorithms (last_settings S B cli),
          last-append l (setting_if port cli.port),
          last-own l port cli.port _ (λ a. refl),
          last-append l (setting_when cli.insecure_skip_host_check no_host_key_checking),
          last-when l cli.insecure_skip_host_check no_host_key_checking _ refl,
          last-append l (setting_if username (or_else cli.user parsed)),
          last-other l username (or_else cli.user parsed) _ (λ a. refl),
          last-append l (setting_if identity_file cli.identity),
          last-other l identity_file cli.identity _ (λ a. refl),
          last-other l cert_file cli.cert _ (λ a. refl),
          last-algorithms l cli _ (λ a. refl) (λ a. refl) (λ a. refl) (λ a. refl) given,
          last-append l (setting_if connect_timeout cli.connect_timeout),
          last-other l connect_timeout cli.connect_timeout _ (λ a. refl),
          last-append l (setting_if connection_attempts cli.attempts),
          last-other l connection_attempts cli.attempts _ (λ a. refl),
          last-other l max_retry_window cli.max_retry_window _ (λ a. refl),
        )
        refl

  last-timeout :
      {get : B.Builder → ℕ} (l : IsField get as_timeout) (cli : Cli) (parsed : Option String)
      (algorithms : List Setting) (x : ℕ)
      → algorithm_settings S B cli ≡ ok algorithms
      → last l (all_settings cli parsed algorithms) x ≡ unwrap_or cli.connect_timeout x
  unfolding first_settings last_settings
  last-timeout l cli parsed algorithms x given =
      rw
        (
          last-append l (first_settings S B cli parsed) (algorithms ++ last_settings S B cli) x,
          last-append l algorithms (last_settings S B cli),
          last-append l (setting_if port cli.port),
          last-other l port cli.port _ (λ a. refl),
          last-append l (setting_when cli.insecure_skip_host_check no_host_key_checking),
          last-when l cli.insecure_skip_host_check no_host_key_checking _ refl,
          last-append l (setting_if username (or_else cli.user parsed)),
          last-other l username (or_else cli.user parsed) _ (λ a. refl),
          last-append l (setting_if identity_file cli.identity),
          last-other l identity_file cli.identity _ (λ a. refl),
          last-other l cert_file cli.cert _ (λ a. refl),
          last-algorithms l cli _ (λ a. refl) (λ a. refl) (λ a. refl) (λ a. refl) given,
          last-append l (setting_if connect_timeout cli.connect_timeout),
          last-own l connect_timeout cli.connect_timeout _ (λ a. refl),
          last-append l (setting_if connection_attempts cli.attempts),
          last-other l connection_attempts cli.attempts _ (λ a. refl),
          last-other l max_retry_window cli.max_retry_window _ (λ a. refl),
        )
        refl

  configured :
      (cli : Cli) (parsed : Option String) (host : String) (resolved : Option B.Config)
      {b : B.Builder}
      → configure S B cli parsed host resolved ≡ ok b
      → (algorithms : List Setting) × (algorithm_settings S B cli ≡ ok algorithms)
        × (apply S B
              (first_settings S B cli parsed ++ (algorithms ++ last_settings S B cli))
              (base S B cli host resolved)
            ≡ b)
  unfolding configure
  configured cli parsed host resolved h =
      let (algorithms, given, last) =
        >>=-eq-ok (algorithm_settings S B cli)
          (λ algorithms. ok (
            apply S B (first_settings S B cli parsed ++ (algorithms ++ last_settings S B cli))
              (base S B cli host resolved)))
          h in
      (algorithms, given, ok-injective last)

  -- The builder has the user name of the flag, else that of the argument, else what ssh_config or
  -- the default gives; and the port and the connect timeout of their flags, else what ssh_config or the default
  -- gives. So it is for every builder whose settings set their own value and leave the others alone.
  pub configure-precedence :
      {user_of : B.Builder → String} {port_of timeout_of : B.Builder → ℕ}
      → IsField user_of as_username
      → IsField port_of as_port
      → IsField timeout_of as_timeout
      → (cli : Cli) (parsed : Option String) (host : String) (resolved : Option B.Config)
        (b : B.Builder)
      → configure S B cli parsed host resolved ≡ ok b
      → (user_of b ≡ unwrap_or (or_else cli.user parsed) (user_of (base S B cli host resolved)))
        × (port_of b ≡ unwrap_or cli.port (port_of (base S B cli host resolved)))
        × (timeout_of b ≡ unwrap_or cli.connect_timeout (timeout_of (base S B cli host resolved)))
  configure-precedence users ports timeouts cli parsed host resolved b h =
      let (algorithms, given, built) = configured cli parsed host resolved h in
      rw⁻¹ built (
        get-apply users _ _ ∙ last-user users cli parsed algorithms _ given,
        get-apply ports _ _ ∙ last-port ports cli parsed algorithms _ given,
        get-apply timeouts _ _ ∙ last-timeout timeouts cli parsed algorithms _ given,
      )
