-- ===== src/Session/Route.antt =====
-- Which way gitway-cli/src/main.rs connects, by its flags and ssh_config.
use gitway.Base.{String, ◌≡◌, refl, true, Option, some, List, [], ◌∷◌, ok}
use gitway.Base.Text.{eq_ignore_ascii_case}
use gitway.Session.{
  Ssh, Resolved, jump_chain, resolve_proxy_directives, effective_proxy, unproxied, connect_session,
}

module _ {W : Type 0} (S : Ssh W) where
  jump_chain-flag :
      (h : String) (hosts : List String) (r r' : Option Resolved)
      → jump_chain S (h ∷ hosts) r ≡ jump_chain S (h ∷ hosts) r'
  unfolding jump_chain
  jump_chain-flag h [] r r' = refl
  jump_chain-flag h (g ∷ hosts) r r' = refl

  direct :
      (config : S.Config) (alias proxy : String) (w : W)
      → eq_ignore_ascii_case proxy "none" ≡ true
      → connect_session S config alias (some proxy) [] w ≡ S.connect config w
  unfolding connect_session
  direct config alias proxy w no_proxy =
      rw (connect_session, effective_proxy, no_proxy, unproxied) refl

  -- The flags win over ssh_config: with both `--proxy-command` and `--jump-host`, what ssh_config
  -- gives has no influence. With `none` for both, in any case of letters, the connection is direct
  -- whatever ssh_config says.
  pub resolve_proxy_directives-flags :
      (proxy jump : String) (jumps : List String) (r r' : Option Resolved)
      → (resolve_proxy_directives S (some proxy) (jump ∷ jumps) r
          ≡ resolve_proxy_directives S (some proxy) (jump ∷ jumps) r')
        × (eq_ignore_ascii_case proxy "none" ≡ true
            → eq_ignore_ascii_case jump "none" ≡ true
            → (given : Option String × List S.JumpHost) × (resolve_proxy_directives S
                  (some proxy)
                  (jump ∷ [])
                  r
                ≡ ok given)
              × ((config : S.Config) (alias : String) (w : W)
                  → connect_session S config alias given.0 given.1 w ≡ S.connect config w))
  unfolding resolve_proxy_directives
  resolve_proxy_directives-flags proxy jump jumps r r' = (
    rw (jump_chain-flag jump jumps r r') refl,
    λ no_proxy no_jump. (
      (some proxy, []),
      rw (jump_chain, no_jump) refl,
      λ config alias w. direct config alias proxy w no_proxy,
    ),
  )
