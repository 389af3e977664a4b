-- ===== src/NodeConfig/Raised.antt =====
-- What the reading of the nodes of the environment raises.
use vpp_wl_mobile.Prelude.{
  ℕ, String, inl, inr, not, ◌&&◌, Option, List, [], ◌∷◌, Bool-cases, is_empty,
}
use vpp_wl_mobile.Prelude.Int.{ℤ, pos, leb_ℤ}
use vpp_wl_mobile.Errors.Ends.{
  Ends, Anything, bind-Ends, or_fail-Ends, fail_if-Ends, Ends-ok, Ends-value_error,
}
use vpp_wl_mobile.NodeConfig.{
  Env, setting, required, node_at, parse_numbers, parse_nodes_from_env, node_numbers, enabled_of,
}

required-Ends : (env : Env) (n : ℕ) (name : String) → Ends Anything (required env n name)
unfolding required
required-Ends env n name = elim (Bool-cases (is_empty (setting env n name ""))) [
  | inl e ↦ rw e (Ends-value_error Anything _)
  | inr e ↦ rw e (Ends-ok Anything _ tt)
]

module _ (int_of : String → Option ℤ) (lower text_repr : String → String) where
  node_at-Ends :
      (env : Env) (n : ℕ) (host : String)
      → Ends Anything (node_at int_of lower text_repr env n host)
  unfolding node_at
  node_at-Ends env n host = or_fail-Ends _ (int_of (setting env n "PORT" "443")) _ _ (λ port.
      fail_if-Ends _ (not (leb_ℤ (pos 1) port && leb_ℤ port (pos 65_535))) _ _ (λ _.
        bind-Ends Anything _ (required env n "UUID") _ (required-Ends env n "UUID") (λ _ _.
          bind-Ends Anything _ (required env n "PUBLIC_KEY") _ (required-Ends env n "PUBLIC_KEY")
            (λ _ _.
              bind-Ends Anything _ (required env n "SHORT_ID") _ (required-Ends env n "SHORT_ID")
                (λ _ _.
                  bind-Ends Anything _ (required env n "SNI") _ (required-Ends env n "SNI") (λ _ _.
                    or_fail-Ends _ (int_of _) _ _ (λ _.
                      or_fail-Ends _ (enabled_of (lower (setting env n "ENABLED" "true"))) _ _
                        (λ _. Ends-ok Anything _ tt))))))))

  parse_numbers-Ends :
      (env : Env) (ns : List ℕ) → Ends Anything (parse_numbers int_of lower text_repr env ns)
  unfolding parse_numbers
  parse_numbers-Ends env [] = Ends-ok Anything [] tt
  parse_numbers-Ends env (n ∷ ns) =
      let host = setting env n "HOST" "" in
      let rest = parse_numbers-Ends env ns in
      elim (Bool-cases (is_empty host)) [
        | inl e ↦ rw e rest
        | inr e ↦ rw e (
            bind-Ends Anything _ (node_at int_of lower text_repr env n host) _
              (node_at-Ends env n host)
              (λ _ _.
                bind-Ends Anything _ (parse_numbers int_of lower text_repr env ns) _ rest
                  (λ _ _. Ends-ok Anything _ tt)))
      ]

  pub parse_nodes_from_env-Ends :
      (env : Env) → Ends Anything (parse_nodes_from_env int_of lower text_repr env)
  unfolding parse_nodes_from_env
  parse_nodes_from_env-Ends env = parse_numbers-Ends env node_numbers
