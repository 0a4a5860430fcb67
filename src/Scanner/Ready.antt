-- ===== src/Scanner/Ready.antt =====
-- What New of internal/scanner/scanner.go accepts.
use hemera.Base.{
  ◌≡◌, refl, subst, inl, inr, true, some, none, ok, wrap_error, wrap_error-ok, >>=-eq-ok,
  ok_injective, [], map, length, ◌==◌, All, All-of_In, All-map_imp, Unique, Bool-cases,
}
use hemera.Float.{Float64}
use hemera.Text.{Text}
use hemera.Model.{SignalType}
use hemera.Rules.Schema.{Evidence}
use hemera.Rules.Validate.Document.{validate_rule_set}
use hemera.Rules.Capabilities.{
  supports, new_capability_registry, default_capability_registry, validate_rule_set_capabilities,
}
use hemera.Rules.Capabilities.Consistent.{new_capability_registry-exact}
use hemera.Scanner.{
  Config, Scanner, invalid_rule_set, production_capabilities, analyzer_capabilities,
  unsupported_rules, Configured, configure_analyzers, new_scanner, sources_of,
}
use hemera.Scanner.Analyzers.{IsNamed, IsContracted, configure_analyzers-IsReadBy}

abbrev any_evidence : SignalType → Evidence (Unit {0})
any_evidence t = record {
  id = [];
  group = [];
  description = [];
  type = t;
  source = none;
  key = none;
  value = none;
  url = none;
  weight = tt;
}

module _ {W E F : Type 0} ⦃tx : Text⦄ where
  -- What New promises of the scanner that it returns.
  pub record IsReady ⦃fl : Float64 F⦄ (config : Config W E F) (s : Scanner W E F) : Type 0 where
    pub valid : validate_rule_set config.rule_set ≡ ok tt
    pub same_rules : s.rule_set ≡ config.rule_set
    pub in_order : map (λ c. some c.analyzer) s.analyzers ≡ map (λ e. e.analyzer) config.analyzers
    pub unique : Unique (sources_of s)
    pub sound : All IsNamed s.analyzers
    pub contracted : All IsContracted s.analyzers
    pub supported :
        All
          (λ c. All (λ t. supports s.capability c.source t ≡ true) c.analyzer.capabilities)
          s.analyzers
    pub producible : validate_rule_set_capabilities s.capability config.rule_set ≡ ok tt

  -- If New gives a scanner: the rule set is valid and is the scanner's own; the analyzers are those
  -- of the configuration, none missing, in its order; their sources are distinct, not empty,
  -- unchanged by strings.TrimSpace, and the names that the analyzers give; each failure policy is
  -- one of the two constants; each analyzer advertises at least one signal type, only known ones,
  -- none twice, and, if the production contract lists any for its source, exactly that list once
  -- sorted; the scanner's registry supports every signal type that an analyzer advertises; and
  -- ValidateRuleSetCapabilities accepts the rule set for that registry.
  pub new_scanner-IsReady :
      ⦃fl : Float64 F⦄ (config : Config W E F) (s : Scanner W E F)
      → new_scanner config ≡ ok s
      → IsReady config s
  unfolding new_scanner
  new_scanner-IsReady config s h = elim (Bool-cases (length config.analyzers == 0)) [
    | inl e ↦ cc (rw (new_scanner, e) at h)
    | inr e ↦
        let (u, valid, h₁) =
          >>=-eq-ok (wrap_error invalid_rule_set (validate_rule_set config.rule_set)) _
            (rw (new_scanner, e) at h) in
        let (defaults, _, h₂) =
          >>=-eq-ok (wrap_error production_capabilities default_capability_registry) _ h₁ in
        let start : Configured W E F = record {
          analyzers = [];
          sources = [];
          declarations = defaults.capabilities;
        } in
        let (st, read, h₃) = >>=-eq-ok (configure_analyzers 0 config.analyzers start) _ h₂ in
        let (registry, built, h₄) =
          >>=-eq-ok (wrap_error analyzer_capabilities (new_capability_registry st.declarations)) _
            h₃ in
        let (u', able, h₅) =
          >>=-eq-ok
            (wrap_error unsupported_rules (validate_rule_set_capabilities registry config.rule_set))
            _ h₄ in
        let v =
          configure_analyzers-IsReadBy 0 [] config.analyzers start st
            (record {
              in_order = refl;
              unique = tt;
              known = λ x j. j;
              sound = tt;
              contracted = tt;
              declared = tt;
            })
            read in
        let registered = wrap_error-ok analyzer_capabilities _ built in
        subst (IsReady config) (ok_injective h₅) (record {
          valid = wrap_error-ok invalid_rule_set _ valid;
          same_rules = refl;
          in_order = v.in_order;
          unique = v.unique;
          sound = v.sound;
          contracted = v.contracted;
          supported =
              All-map_imp _ _ st.analyzers
                (λ c f. All-of_In _ c.analyzer.capabilities (λ t j.
                  (new_capability_registry-exact st.declarations registry (any_evidence t) c.source
                      t registered).0.1
                    (f t j)))
                v.declared;
          producible = wrap_error-ok unsupported_rules _ able;
        })
  ]
