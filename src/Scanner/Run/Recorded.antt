-- ===== src/Scanner/Run/Recorded.antt =====
-- What the loop of Scan over the analyzers, internal/scanner/scanner.go, has recorded when it ends well.
use hemera.Base.{
  ◌≡◌, refl, sym, ◌∙◌, ap, ap₂, subst, inl, inr, Bytes, Option, none, Result, ok, err, List, [],
  ◌∷◌, ◌++◌, All, Option-cases, Result-cases, ok_injective,
}
use mathlib.Core.List.{append-nil, append_assoc, map-append}
use hemera.Float.{Float64}
use hemera.Text.{Text}
use hemera.Model.{Signal}
use hemera.Analysis.{Observation, kinds}
use hemera.Rules.Capabilities.{CapabilityRegistry}
use hemera.Scanner.{ConfiguredAnalyzer, AnalyzerResult}
use hemera.Scanner.Accept.{
  validate_observation, claim_kinds, IsAccepted, validate_observation-IsAccepted,
}
use hemera.Scanner.Run.{
  Moment, before_analyzer, after_analyzer, ScanError, ScanEvent, started, finished, ScanState,
  prior_observations, status_of, fatal, record_result, accept_observation, run_analyzer, and_then,
  run_analyzers,
}

module _ {E F : Type 0} where
  and_then-ok :
      (x : List ScanEvent × Result (ScanError E) (ScanState E F))
      (next : ScanState E F → List ScanEvent × Result (ScanError E) (ScanState E F))
      {events : List ScanEvent} {st : ScanState E F}
      → and_then x next ≡ (events, ok st)
      → (st₁ : ScanState E F) × (first : List ScanEvent) × (more : List ScanEvent) × (x
          ≡ (first, ok st₁))
        × (next st₁ ≡ (more, ok st))
        × (events ≡ first ++ more)
  and_then-ok (events₁, err e) next h = cc h
  and_then-ok (events₁, ok st₁) next h = (
    st₁,
    events₁,
    (next st₁).0,
    refl,
    ap (λ x. ((next st₁).0, x)) (ap (λ x. x.1) h),
    sym (ap (λ x. x.0) h),
  )

module _ {E F : Type 0} where
  abbrev pub all_signals : List (AnalyzerResult E F) → List (Signal F)
  all_signals [] = []
  all_signals (a ∷ results) = a.observation.signals ++ all_signals results

  abbrev pub all_events : List (AnalyzerResult E F) → List ScanEvent
  all_events [] = []
  all_events (a ∷ results) =
      started a.observation.source ∷ finished a.observation.source a.status ∷ all_events results

module _ {W E F : Type 0} ⦃fl : Float64 F⦄ ⦃tx : Text⦄ (registry : CapabilityRegistry) (w : W)
    (url : Bytes) where
  -- The result `a` of the analyzer `c`, which was given the observations `prior`.
  pub record IsResultOf (prior : List (Observation F)) (c : ConfiguredAnalyzer W E F)
      (a : AnalyzerResult E F) : Type 0 where
    pub observed :
        c.analyzer.observe w (record { url = url; prior = prior }) ≡ (a.observation, a.failure)
    pub own : a.observation.source ≡ c.source
    pub classified : a.status ≡ status_of a.observation a.failure
    pub tolerated : fatal c.policy a.failure ≡ none
    pub accepted : All (IsAccepted registry c.source) a.observation.signals

  -- One result for each analyzer, in order, each given the observations of those before it.
  abbrev pub AreResultsOf :
      List (Observation F) → List (ConfiguredAnalyzer W E F) → List (AnalyzerResult E F) → Type 0
  AreResultsOf prior [] [] = Unit
  AreResultsOf prior (c ∷ cs) (a ∷ results) =
      IsResultOf prior c a × AreResultsOf (prior ++ (a.observation ∷ [])) cs results
  AreResultsOf prior _ _ = ⊥

module _ {W E F : Type 0} ⦃fl : Float64 F⦄ ⦃tx : Text⦄ (registry : CapabilityRegistry)
    (ctx : W → Moment → Option E) (w : W) (url : Bytes) where
  abbrev Records :
      ConfiguredAnalyzer W E F → ScanState E F → List ScanEvent → ScanState E F → Type 0
  Records c st events st' =
      (a : AnalyzerResult E F) × IsResultOf registry w url (prior_observations st.analyzers) c a
      × (st'.analyzers ≡ st.analyzers ++ (a ∷ []))
      × (st'.signals ≡ st.signals ++ a.observation.signals)
      × (events ≡ started c.source ∷ finished c.source a.status ∷ [])

  accept_observation-ok :
      (c : ConfiguredAnalyzer W E F) (o : Observation F) (failure : Option E)
      (st st' : ScanState E F) (events : List ScanEvent)
      → c.analyzer.observe w (record { url = url; prior = prior_observations st.analyzers })
        ≡ (o, failure)
      → accept_observation registry c.source c.policy o failure st ≡ (events, ok st')
      → Records c st (started c.source ∷ events) st'
  unfolding accept_observation
  accept_observation-ok c o failure st st' events observed h =
      elim (Result-cases (validate_observation c.source o registry)) [
        | inr (e, bad) ↦ cc (rw (accept_observation, bad) at h)
        | inl (u, good) ↦
            elim (Result-cases (claim_kinds c.source (kinds o.metadata) st.metadata_sources)) [
              | inr (e, bad) ↦ cc (rw (accept_observation, good, bad) at h)
              | inl (metadata, claimed) ↦ elim (Option-cases (fatal c.policy failure)) [
                | inr (e, bad) ↦ cc (rw (accept_observation, good, claimed, bad) at h)
                | inl tolerated ↦
                    let st_is : st' ≡ record_result o failure metadata st =
                      cc (rw (accept_observation, good, claimed, tolerated) at h) in
                    let events_are : events ≡ finished c.source (status_of o failure) ∷ [] =
                      cc (rw (accept_observation, good, claimed, tolerated) at h) in
                    let (own, accepted) =
                      validate_observation-IsAccepted c.source o registry u good in
                    (
                      record { observation = o; status = status_of o failure; failure = failure },
                      record {
                        observed = observed;
                        own = own;
                        classified = refl;
                        tolerated = tolerated;
                        accepted = accepted;
                      },
                      ap (λ s. s.analyzers) st_is,
                      ap (λ s. s.signals) st_is,
                      ap (λ x. started c.source ∷ x) events_are,
                    )
              ]
            ]
      ]

  run_analyzer-ok :
      (c : ConfiguredAnalyzer W E F) (st st' : ScanState E F) (events : List ScanEvent)
      → run_analyzer registry ctx w url c st ≡ (events, ok st')
      → Records c st events st'
  unfolding run_analyzer
  run_analyzer-ok c st st' events h =
      let seen =
        c.analyzer.observe w (record { url = url; prior = prior_observations st.analyzers }) in
      elim (Option-cases (ctx w (before_analyzer c.source))) [
        | inr (e, stop) ↦ cc (rw (run_analyzer, stop) at h)
        | inl go_on ↦ elim (Option-cases (ctx w (after_analyzer c.source))) [
          | inr (e, stop) ↦ cc (rw (run_analyzer, go_on, stop) at h)
          | inl go_on' ↦
              let accepted = accept_observation registry c.source c.policy seen.0 seen.1 st in
              let both : List ScanEvent × Result (ScanError E) (ScanState E F) =
                (started c.source ∷ accepted.0, accepted.1) in
              let h' : both ≡ (events, ok st') = rw (run_analyzer, go_on, go_on') at h in
              subst (λ x. Records c st x st') (ap (λ x. x.0) h')
                (accept_observation-ok c seen.0 seen.1 st st' accepted.0 refl
                  (ap (λ x. (accepted.0, x)) (ap (λ x. x.1) h')))
        ]
      ]

  -- The loop records one result for each analyzer, in order, and the signals and the events of these.
  abbrev pub Recorded :
      List (ConfiguredAnalyzer W E F) → ScanState E F → List ScanEvent → ScanState E F → Type 0
  Recorded cs st events st' =
      (results : List (AnalyzerResult E F)) × AreResultsOf registry w url
        (prior_observations st.analyzers) cs results
      × (st'.analyzers ≡ st.analyzers ++ results)
      × (st'.signals ≡ st.signals ++ all_signals results)
      × (events ≡ all_events results)

  pub run_analyzers-Recorded :
      (cs : List (ConfiguredAnalyzer W E F)) (st st' : ScanState E F) (events : List ScanEvent)
      → run_analyzers registry ctx w url cs st ≡ (events, ok st')
      → Recorded cs st events st'
  unfolding run_analyzers
  run_analyzers-Recorded [] st st' events h =
      let same : st ≡ st' = ok_injective (ap (λ x. x.1) h) in
      (
        [],
        tt,
        sym (ap (λ s. s.analyzers) same) ∙ sym (append-nil st.analyzers),
        sym (ap (λ s. s.signals) same) ∙ sym (append-nil st.signals),
        sym (ap (λ x. x.0) h),
      )
  run_analyzers-Recorded (c ∷ cs) st st' events h =
      let (st₁, first, more, e, e', joined) =
        and_then-ok (run_analyzer registry ctx w url c st) (run_analyzers registry ctx w url cs)
          h in
      let (a, is_result, grown, signals, emitted) = run_analyzer-ok c st st₁ first e in
      let (results, rest, grown', signals', emitted') = run_analyzers-Recorded cs st₁ st' more e' in
      let prior : prior_observations st₁.analyzers
          ≡ prior_observations st.analyzers ++ (a.observation ∷ []) =
        ap prior_observations grown ∙ map-append (λ x. x.observation) st.analyzers (a ∷ []) in
      (
        a ∷ results,
        (is_result, subst (λ p. AreResultsOf registry w url p cs results) prior rest),
        grown' ∙ ap (λ x. x ++ results) grown ∙ append_assoc st.analyzers (a ∷ []) results,
        signals'
            ∙ ap (λ x. x ++ all_signals results) signals
            ∙ append_assoc st.signals a.observation.signals (all_signals results),
        joined
            ∙ ap₂ (λ x y. x ++ y)
                (emitted ∙ ap (λ s. started s ∷ finished s a.status ∷ []) (sym is_result.own))
                emitted',
      )
