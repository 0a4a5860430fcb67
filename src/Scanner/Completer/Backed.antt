-- ===== src/Scanner/Completer/Backed.antt =====
-- What stands behind an answer of the closure of buildCapabilityCompleter, internal/scanner/scanner.go.
use hemera.Base.{
  ◌≡◌, refl, sym, ◌∙◌, ap, subst, ◌⊎◌, inl, inr, Bool, true, false, Bytes, bytes_eq, bytes_eq→eq,
  bytes_eq_iff, has, Option, some, none, if◌then◌else◌, List, [], ◌∷◌, Table, lookup, put,
  lookup-put, or_zero, length, ◌==◌, In, Bool-cases, arith,
}
use hemera.Model.{SignalType}
use hemera.Analysis.{CapabilityCoverage, CapabilityStatus, complete, incomplete, unsupported}
use hemera.Scanner.{AnalyzerStatus, AnalyzerResult, status_complete, status_partial, status_failed}
use hemera.Scanner.Completer.{
  Completeness, is_complete_status, is_complete, nothing_complete, declare_coverage, add_analyzer,
  add_analyzers, build_capability_completer,
}

is_complete-true : (s : CapabilityStatus) → is_complete s ≡ true → s ≡ complete
is_complete-true complete h = refl
is_complete-true incomplete h = cc
is_complete-true (unsupported x) h = cc

is_complete_status-true : (s : AnalyzerStatus) → is_complete_status s ≡ true → s ≡ status_complete
is_complete_status-true status_complete h = refl
is_complete_status-true status_partial h = cc
is_complete_status-true status_failed h = cc

abbrev read : Bytes → SignalType → Table (Table Bool) → Bool
read s t m = or_zero false (lookup s (or_zero [] (lookup t m)))

-- The coverage list declares the type as complete.
abbrev pub Declares : SignalType → List CapabilityCoverage → Type 0
Declares t cs = (c : CapabilityCoverage) × In c cs × (c.signal_type ≡ t) × (c.status ≡ complete)

or_zero-true : (o : Option Bool) → or_zero false o ≡ true → o ≡ some true
or_zero-true none h = cc
or_zero-true (some b) h = ap some h

read-put :
    (s : Bytes) (t : SignalType) (source : Bytes) (u : SignalType) (b : Bool)
    (m : Table (Table Bool))
    → read s t (put u (put source b (or_zero [] (lookup u m))) m)
      ≡ (if bytes_eq u t then (if bytes_eq source s then b else read s u m) else read s t m)
read-put s t source u b m = ground (
  arith,
  lookup-put u t (put source b (or_zero [] (lookup u m))) m,
  lookup-put source s b (or_zero [] (lookup u m)),
)

declare_coverage_lem :
    (s : Bytes) (t : SignalType) (source : Bytes) (cs : List CapabilityCoverage)
    (m : Table (Table Bool))
    → read s t (declare_coverage source cs m) ≡ true
    → (read s t m ≡ true) ⊎ ((source ≡ s) × Declares t cs)
unfolding declare_coverage
declare_coverage_lem s t source [] m h = inl h
declare_coverage_lem s t source (c ∷ cs) m h =
    let m' =
      put c.signal_type (put source (is_complete c.status) (or_zero [] (lookup c.signal_type m)))
        m in
    elim (declare_coverage_lem s t source cs m' h) [
      | inr (e, (d, i, f, g)) ↦ inr (e, (d, inr i, f, g))
      | inl k ↦ elim (Bool-cases (bytes_eq c.signal_type t)) [
        | inr other ↦ inl (sym (read-put s t source c.signal_type _ m ∙ rw other refl) ∙ k)
        | inl same ↦ elim (Bool-cases (bytes_eq source s)) [
          | inr other ↦
              let k' =
                sym (
                  read-put s t source c.signal_type (is_complete c.status) m
                  ∙ rw (same, other) refl)
                ∙ k in
              inl (subst (λ u. read s u m ≡ true) (bytes_eq→eq _ _ same) k')
          | inl own ↦
              let k' =
                sym
                  (read-put s t source c.signal_type (is_complete c.status) m ∙ rw (same, own) refl)
                ∙ k in
              inr (
                bytes_eq→eq _ _ own,
                (c, inl refl, bytes_eq→eq _ _ same, is_complete-true c.status k'),
              )
        ]
      ]
    ]

empty_of : (cs : List CapabilityCoverage) → (length cs == 0) ≡ true → cs ≡ []
empty_of [] h = refl
empty_of (c ∷ cs) h = ground arith

module _ {E F : Type 0} where
  -- An analyzer of the source that declared the type as complete, or declared nothing and is complete.
  abbrev DeclaredBy : List (AnalyzerResult E F) → Bytes → SignalType → Type 0
  DeclaredBy rest s t =
      (a : AnalyzerResult E F) × In a rest
      × (a.observation.source ≡ s)
      × Declares t a.observation.capabilities

  abbrev CompleteBy : List (AnalyzerResult E F) → Bytes → Type 0
  CompleteBy rest s =
      (a : AnalyzerResult E F) × In a rest
      × (a.observation.source ≡ s)
      × (a.status ≡ status_complete)

  declared_lem :
      (s : Bytes) (t : SignalType) (rest : List (AnalyzerResult E F)) (m : Completeness)
      → read s t (add_analyzers rest m).declared ≡ true
      → (read s t m.declared ≡ true) ⊎ DeclaredBy rest s t
  unfolding add_analyzers
  declared_lem s t [] m h = inl h
  declared_lem s t (a ∷ rest) m h = elim (declared_lem s t rest (add_analyzer a m) h) [
    | inr (b, i, f, g) ↦ inr (b, inr i, f, g)
    | inl k ↦
        elim (declare_coverage_lem s t a.observation.source a.observation.capabilities m.declared
          k) [ inl j ↦ inl j | inr (own, d) ↦ inr (a, inl refl, own, d) ]
  ]

  statuses_lem :
      (s : Bytes) (rest : List (AnalyzerResult E F)) (m : Completeness)
      → or_zero false (lookup s (add_analyzers rest m).statuses) ≡ true
      → (or_zero false (lookup s m.statuses) ≡ true) ⊎ CompleteBy rest s
  unfolding add_analyzers
  statuses_lem s [] m h = inl h
  statuses_lem s (a ∷ rest) m h = elim (statuses_lem s rest (add_analyzer a m) h) [
    | inr (b, i, f, g) ↦ inr (b, inr i, f, g)
    | inl k ↦
        let step =
          ap (or_zero false)
            (lookup-put a.observation.source s (is_complete_status a.status) m.statuses) in
        elim (Bool-cases (bytes_eq a.observation.source s)) [
          | inr other ↦ inl (sym (step ∙ rw other refl) ∙ k)
          | inl own ↦ inr (
            a,
            inl refl,
            bytes_eq→eq _ _ own,
            is_complete_status-true a.status (sym (step ∙ rw own refl) ∙ k),
          )
        ]
  ]

  aware_kept :
      (s : Bytes) (rest : List (AnalyzerResult E F)) (m : Completeness)
      → has s (add_analyzers rest m).aware ≡ false
      → has s m.aware ≡ false
  unfolding add_analyzers has
  aware_kept s [] m h = h
  aware_kept s (a ∷ rest) m h = elim (Bool-cases (length a.observation.capabilities == 0)) [
    | inl none_declared ↦ rw none_declared at (aware_kept s rest (add_analyzer a m) h)
    | inr some_declared ↦
        ground (arith, rw some_declared at (aware_kept s rest (add_analyzer a m) h))
  ]

  unaware :
      (s : Bytes) (rest : List (AnalyzerResult E F)) (m : Completeness) (a : AnalyzerResult E F)
      → has s (add_analyzers rest m).aware ≡ false
      → In a rest
      → a.observation.source ≡ s
      → a.observation.capabilities ≡ []
  unfolding add_analyzers has
  unaware s [] m a h i own = absurd i
  unaware s (b ∷ rest) m a h (inr i) own = unaware s rest (add_analyzer b m) a h i own
  unaware s (b ∷ rest) m a h (inl same) own =
      let k = aware_kept s rest (add_analyzer b m) h in
      elim (Bool-cases (length b.observation.capabilities == 0)) [
        | inl none_declared ↦
            subst (λ x. x.observation.capabilities ≡ []) same (empty_of _ none_declared)
        | inr some_declared ↦ absurd (
            ground (
              arith,
              rw some_declared at k,
              bytes_eq_iff b.observation.source s,
              ap (λ x. x.observation.source) same ∙ own,
            ))
      ]

  -- If the closure of buildCapabilityCompleter answers that a source is complete for a type, some
  -- analyzer of that source declared the type as complete, or declared nothing and ended with the
  -- status complete.
  pub build_capability_completer-Declares :
      (analyzers : List (AnalyzerResult E F)) (s : Bytes) (t : SignalType)
      → build_capability_completer analyzers s t ≡ true
      → (a : AnalyzerResult E F) × In a analyzers
        × (a.observation.source ≡ s)
        × (Declares t a.observation.capabilities
            ⊎ ((a.observation.capabilities ≡ []) × (a.status ≡ status_complete)))
  unfolding build_capability_completer lookup
  build_capability_completer-Declares analyzers s t h =
      let m = add_analyzers analyzers nothing_complete in
      elim (Bool-cases (has s m.aware)) [
        | inl aware ↦ elim (declared_lem s t analyzers nothing_complete (rw aware at h)) [
          | inl k ↦ cc
          | inr (a, i, own, d) ↦ (a, i, own, inl d)
        ]
        | inr not_aware ↦ elim (statuses_lem s analyzers nothing_complete (rw not_aware at h)) [
          | inl k ↦ cc
          | inr (a, i, own, c) ↦
              (a, i, own, inr (unaware s analyzers nothing_complete a not_aware i own, c))
        ]
      ]
