-- ===== src/Scanner/Analyzers.antt =====
-- The loop of New of internal/scanner/scanner.go over the analyzers of a configuration.
use hemera.Base.{
  ℕ, suc, ◌≡◌, ◌≢◌, bytes_eq_iff, refl, sym, ◌∙◌, ap, subst, ◌⊎◌, inl, inr, true, false, Bytes,
  bytes_eq, bytes_eq→eq, has, In→has, Option, some, none, Result, ok, >>=-eq-ok, ok_injective, List,
  [], ◌∷◌, ◌++◌, map, length, ◌==◌, All, All-append, All-of_In, All-map_imp, In, In-append,
  In-append_left, In-append_right, Unique, Unique-snoc, Option-cases, arith,
}
use mathlib.Core.List.{map-append, append_assoc, append-nil}
use hemera.Text.{Text}
use hemera.Model.{is_valid_type, SignalType}
use hemera.Sorted.{sort_strings}
use hemera.Sorted.Distinct.{In-sort_strings}
use hemera.Analysis.{Capability}
use hemera.Rules.Capabilities.Consistent.{declares}
use hemera.Sorted.Order.{IsAscending}
use hemera.Scanner.Declared.{
  declare_capabilities-IsAscending, declare_capabilities-In, declare_capabilities-valid,
  KeepsContract, contract_error-KeepsContract,
}
use hemera.Scanner.{
  contract_error, Analyzer, AnalyzerConfig, ConfiguredAnalyzer, ConfigError, declare_capabilities,
  Configured, configure_named, refuse, configure_analyzer, configure_analyzers,
}

refuse-ok :
    {A : Type 0} (o : Option ConfigError) (next : Result ConfigError A) {x : A}
    → refuse o next ≡ ok x
    → (o ≡ none) × (next ≡ ok x)
refuse-ok none next h = (refl, h)
refuse-ok (some e) next h = cc

module _ {W E F : Type 0} ⦃tx : Text⦄ where
  -- What New checks of one analyzer, next to the sources of those before it.
  pub record IsNamed (c : ConfiguredAnalyzer W E F) : Type 0 where
    pub own : c.source ≡ c.analyzer.source
    pub trimmed : tx.trim_space c.source ≡ c.source
    pub present : c.source ≢ []
    pub known_policy : (c.policy ≡ 0) ⊎ (c.policy ≡ 1)

  -- What New checks of the signal types that it advertises.
  pub record IsContracted (c : ConfiguredAnalyzer W E F) : Type 0 where
    pub advertises : c.analyzer.capabilities ≢ []
    pub known_types : All (λ t. is_valid_type t ≡ true) c.analyzer.capabilities
    pub no_repeats : IsAscending (sort_strings c.analyzer.capabilities)
    pub contract : KeepsContract c.source c.analyzer.capabilities

  named :
      (entry : AnalyzerConfig W E F) (a : Analyzer W E F) (i : ℕ) (sources : List Bytes)
      → configure_named entry a i sources ≡ none
      → IsNamed
          (record { analyzer = a; source = tx.trim_space a.source; policy = entry.failure_policy })
        × (has (tx.trim_space a.source) sources ≡ false)
        × (a.capabilities ≢ [])
  named entry a i sources h =
      let same : bytes_eq (tx.trim_space a.source) a.source ≡ true = ground arith in
      let some_capabilities : (length a.capabilities == 0) ≡ false = ground arith in
      (
        record {
          own = bytes_eq→eq _ _ same;
          trimmed = ap tx.trim_space (bytes_eq→eq _ _ same);
          present = ground (arith, bytes_eq_iff (tx.trim_space a.source) []);
          known_policy = ground arith;
        },
        ground arith,
        (λ e. cc (some_capabilities, ap (λ x. length x == 0) e)),
      )

  -- The analyzers that the loop of New has read.
  pub record IsReadBy (entries : List (AnalyzerConfig W E F)) (st : Configured W E F) : Type 0 where
    pub in_order : map (λ c. some c.analyzer) st.analyzers ≡ map (λ e. e.analyzer) entries
    pub unique : Unique (map (λ c. c.source) st.analyzers)
    pub known : (x : Bytes) → In x (map (λ c. c.source) st.analyzers) → In x st.sources
    pub sound : All IsNamed st.analyzers
    pub contracted : All IsContracted st.analyzers
    pub declared :
        All
          (λ c.
            (t : SignalType)
            → In t c.analyzer.capabilities
            → In (declares c.source t) st.declarations)
          st.analyzers

  configure_analyzer-IsReadBy :
      (i : ℕ) (entry : AnalyzerConfig W E F) (entries : List (AnalyzerConfig W E F))
      (st st' : Configured W E F)
      → IsReadBy entries st
      → configure_analyzer i entry st ≡ ok st'
      → IsReadBy (entries ++ (entry ∷ [])) st'
  unfolding configure_analyzer
  configure_analyzer-IsReadBy i entry entries st st' v h = elim (Option-cases entry.analyzer) [
    | inl e ↦ cc (rw (configure_analyzer, e) at h)
    | inr (a, e) ↦
        let (tests, h₁) = refuse-ok _ _ (rw (configure_analyzer, e) at h) in
        let (ds, declared, h₂) =
          >>=-eq-ok
            (declare_capabilities (tx.trim_space a.source) 0 none (sort_strings a.capabilities)) _
            h₁ in
        let (contract, h₃) = refuse-ok _ _ h₂ in
        let (is_named, fresh, advertised) = named entry a i st.sources tests in
        subst (IsReadBy (entries ++ (entry ∷ []))) (ok_injective h₃)
          (extended a ds e is_named fresh advertised contract declared)
  ]
    where
      extended :
          (a : Analyzer W E F) (ds : List Capability)
          → entry.analyzer ≡ some a
          → IsNamed (record {
            analyzer = a;
            source = tx.trim_space a.source;
            policy = entry.failure_policy;
          })
          → has (tx.trim_space a.source) st.sources ≡ false
          → a.capabilities ≢ []
          → contract_error (tx.trim_space a.source) (sort_strings a.capabilities) ≡ none
          → declare_capabilities (tx.trim_space a.source) 0 none (sort_strings a.capabilities)
            ≡ ok ds
          → IsReadBy (entries ++ (entry ∷ [])) (record {
            analyzers =
                st.analyzers
                ++ (record {
                  analyzer = a;
                  source = tx.trim_space a.source;
                  policy = entry.failure_policy;
                }
                    ∷ []);
            sources = tx.trim_space a.source ∷ st.sources;
            declarations = st.declarations ++ ds;
          })
      extended a ds e is_named fresh advertised contract declared =
          let source = tx.trim_space a.source in
          let c : ConfiguredAnalyzer W E F = record {
            analyzer = a;
            source = source;
            policy = entry.failure_policy;
          } in
          let names =
            map-append (λ (x : ConfiguredAnalyzer W E F). x.source) st.analyzers (c ∷ []) in
          record {
            in_order =
                map-append (λ (x : ConfiguredAnalyzer W E F). some x.analyzer) st.analyzers (c ∷ [])
                ∙ ap (λ x. x ++ (some a ∷ [])) v.in_order
                ∙ ap (λ x. map (λ e. e.analyzer) entries ++ (x ∷ [])) (sym e)
                ∙ sym (map-append (λ (x : AnalyzerConfig W E F). x.analyzer) entries (entry ∷ []));
            unique = subst Unique (sym names) (
                Unique-snoc source (map (λ x. x.source) st.analyzers) v.unique
                  (λ j. cc (In→has source st.sources (v.known source j), fresh)));
            known = λ x j.
                elim (In-append x (map (λ x. x.source) st.analyzers) (source ∷ [])
                  (subst (In x) names j)) [
                    | inl k ↦ inr (v.known x k)
                    | inr k ↦ elim k [ inl same ↦ inl same | inr z ↦ absurd z ]
                  ];
            sound = All-append IsNamed st.analyzers (c ∷ []) v.sound (is_named, tt);
            contracted = All-append IsContracted st.analyzers (c ∷ []) v.contracted (
              record {
                advertises = advertised;
                known_types =
                    All-of_In (λ t. is_valid_type t ≡ true) a.capabilities
                      (λ t j.
                        declare_capabilities-valid source 0 none (sort_strings a.capabilities) ds t
                          declared ((In-sort_strings t a.capabilities).1 j));
                no_repeats = declare_capabilities-IsAscending source a.capabilities ds declared;
                contract = contract_error-KeepsContract source a.capabilities contract;
              },
              tt,
            );
            declared =
                All-append _ st.analyzers (c ∷ [])
                  (All-map_imp _ _ st.analyzers
                    (λ x f t j. In-append_left (declares x.source t) st.declarations ds (f t j))
                    v.declared)
                  (
                    (λ t j. In-append_right (declares source t) st.declarations ds (
                        declare_capabilities-In source 0 none (sort_strings a.capabilities) ds t
                          declared ((In-sort_strings t a.capabilities).1 j))),
                    tt,
                  );
          }

  pub configure_analyzers-IsReadBy :
      (i : ℕ) (entries rest : List (AnalyzerConfig W E F)) (st st' : Configured W E F)
      → IsReadBy entries st
      → configure_analyzers i rest st ≡ ok st'
      → IsReadBy (entries ++ rest) st'
  unfolding configure_analyzers
  configure_analyzers-IsReadBy i entries [] st st' v h =
      subst (IsReadBy (entries ++ [])) (ok_injective h)
        (subst (λ x. IsReadBy x st) (sym (append-nil entries)) v)
  configure_analyzers-IsReadBy i entries (entry ∷ rest) st st' v h =
      let (st₁, e, h') = >>=-eq-ok (configure_analyzer i entry st) _ h in
      subst (λ x. IsReadBy x st') (append_assoc entries (entry ∷ []) rest)
        (configure_analyzers-IsReadBy (suc i) (entries ++ (entry ∷ [])) rest st₁ st'
          (configure_analyzer-IsReadBy i entry entries st st₁ v e) h')
