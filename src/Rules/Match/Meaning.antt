-- ===== src/Rules/Match/Meaning.antt =====
-- evaluateCondition of internal/rules/match.go against the meaning of a condition: a predicate is
-- satisfied if some signal meets it, `all` if every child is, `any` if some child is.
use hemera.Base.{
  Bool, true, false, ◌&&◌, ◌||◌, ◌≡◌, ok_injective, refl, ◌∙◌, sym, subst, &&-eq-true, Option, some,
  none, Result, ok, err, List, [], ◌∷◌, ◌++◌, map, All, arith,
}
use hemera.Float.{Float64}
use hemera.Text.{Text}
use hemera.Model.{Signal}
use hemera.Rules.Schema.{
  Evidence, Condition, condition, Group, absent, present, Conditions, nil, cons,
}
use hemera.Rules.Pattern.{PatternError}
use hemera.Rules.Cache.{PreparedEvidence, prepare_evidence, CachedSignal}
use hemera.Rules.Cache.Transparent.{evidence_holds, IsFaithful}
use hemera.Rules.Match.{Outcome, keep_best, signal_outcome, evaluate_condition}
use hemera.Rules.Match.Plain.{
  and_then, and_then-ok, all_matched, any_matched, all_missing, any_outcome, strongest, plain_found,
  plain_match, plain_outcome, plain_group, plain_outcomes,
}
use hemera.Rules.Match.Refines.{evaluate_condition-plain_outcome}

module _ {F : Type 0} ⦃fl : Float64 F⦄ ⦃tx : Text⦄ where
  abbrev pub some_holds : PreparedEvidence F → List (Signal F) → Bool
  some_holds p [] = false
  some_holds p (s ∷ rest) = evidence_holds p s || some_holds p rest

  -- A predicate whose patterns cannot be prepared is satisfied by nothing.
  abbrev pub signal_satisfied : Evidence F → List (Signal F) → Bool
  signal_satisfied e signals = elim (prepare_evidence e) [
    | ok p ↦ some_holds p signals
    | err x ↦ false
  ]

  unfoldable mutual
    -- With both groups given, `any` counts; with none, the condition holds.
    pub satisfied : Condition F → List (Signal F) → Bool
    satisfied (condition (some e) all any) signals = signal_satisfied e signals
    satisfied (condition none all (present any)) signals = some_satisfied any signals
    satisfied (condition none all absent) signals = group_satisfied all signals

    pub group_satisfied : Group F → List (Signal F) → Bool
    group_satisfied absent signals = true
    group_satisfied (present all) signals = all_satisfied all signals

    pub all_satisfied : Conditions F → List (Signal F) → Bool
    all_satisfied nil signals = true
    all_satisfied (cons c cs) signals = satisfied c signals && all_satisfied cs signals

    pub some_satisfied : Conditions F → List (Signal F) → Bool
    some_satisfied nil signals = false
    some_satisfied (cons c cs) signals = satisfied c signals || some_satisfied cs signals

  abbrev pub is_found : Option (Signal F) → Bool
  is_found none = false
  is_found (some _) = true

  pub strongest_found :
      (p : PreparedEvidence F) (best : Option (Signal F)) (signals : List (Signal F))
      → is_found (strongest p best signals) ≡ (is_found best || some_holds p signals)
  strongest_found p none [] = refl
  strongest_found p (some b) [] = refl
  strongest_found p best (s ∷ rest) =
      ground (arith, strongest_found p (keep_best (evidence_holds p s) s best) rest)

  signal_outcome-satisfied :
      (e : Evidence F) (r : Result PatternError (PreparedEvidence F)) (signals : List (Signal F))
      (o : Outcome F)
      → and_then
          (and_then r (λ p. ok (plain_found e (strongest p none signals))))
          (λ m. ok (signal_outcome e m))
        ≡ ok o
      → o.matched ≡ elim r [ ok p ↦ some_holds p signals | err x ↦ false ]
  signal_outcome-satisfied e (err x) signals o h = cc
  signal_outcome-satisfied e (ok p) signals o h = ground (arith, strongest_found p none signals)

  signal_missing :
      (e : Evidence F) (r : Result PatternError (PreparedEvidence F)) (signals : List (Signal F))
      (o : Outcome F)
      → and_then
          (and_then r (λ p. ok (plain_found e (strongest p none signals))))
          (λ m. ok (signal_outcome e m))
        ≡ ok o
      → o.matched ≡ true
      → o.missing ≡ []
  signal_missing e (err x) signals o h m = cc
  signal_missing e (ok p) signals o h m = ground arith

  missing_none :
      (o : Outcome F) (os : List (Outcome F))
      → (o.matched ≡ true → o.missing ≡ [])
      → (all_matched os ≡ true → all_missing os ≡ [])
      → (o.matched && all_matched os) ≡ true
      → o.missing ++ all_missing os ≡ []
  missing_none o os f g h =
      let both = (&&-eq-true o.matched (all_matched os)).0 h in rw (f both.0, g both.1)

  abbrev IsMet : Condition F → List (Signal F) → Outcome F → Type 0
  IsMet c signals o = (o.matched ≡ satisfied c signals) × (o.matched ≡ true → o.missing ≡ [])

  abbrev AreMet : Conditions F → List (Signal F) → List (Outcome F) → Type 0
  AreMet cs signals os =
      (all_matched os ≡ all_satisfied cs signals)
      × (any_matched os ≡ some_satisfied cs signals)
      × (all_matched os ≡ true → all_missing os ≡ [])

  any_outcome-IsMet :
      (os : List (Outcome F)) (b : Bool)
      → any_matched os ≡ b
      → ((any_outcome os).matched ≡ b)
        × ((any_outcome os).matched ≡ true → (any_outcome os).missing ≡ [])
  any_outcome-IsMet os true h = rw h (refl, λ e. refl)
  any_outcome-IsMet os false h = rw h (refl, λ e. cc)

  mutual
    unfolding plain_outcome plain_match satisfied

    outcome-IsMet :
        (c : Condition F) (signals : List (Signal F)) (o : Outcome F)
        → plain_outcome c signals ≡ ok o
        → IsMet c signals o
    outcome-IsMet (condition (some e) all any) signals o h = (
      signal_outcome-satisfied e (prepare_evidence e) signals o h,
      signal_missing e (prepare_evidence e) signals o h,
    )
    outcome-IsMet (condition none all (present any)) signals o h =
        let (os, e, f) = and_then-ok (plain_outcomes any signals) _ h in
        let met = outcomes-AreMet any signals os e in
        let shape = any_outcome-IsMet os (some_satisfied any signals) met.1 in
        subst (λ x. IsMet (condition none all (present any)) signals x) (ok_injective f) shape
    outcome-IsMet (condition none all absent) signals o h = group-IsMet all signals o h

    group-IsMet :
        (g : Group F) (signals : List (Signal F)) (o : Outcome F)
        → plain_group g signals ≡ ok o
        → (o.matched ≡ group_satisfied g signals) × (o.matched ≡ true → o.missing ≡ [])
    group-IsMet absent signals o h = ground arith
    group-IsMet (present all) signals o h =
        let (os, e, f) = and_then-ok (plain_outcomes all signals) _ h in
        let met = outcomes-AreMet all signals os e in
        subst
          (λ (x : Outcome F).
            (x.matched ≡ all_satisfied all signals) × (x.matched ≡ true → x.missing ≡ []))
          (ok_injective f) (met.0, met.2)

    outcomes-AreMet :
        (cs : Conditions F) (signals : List (Signal F)) (os : List (Outcome F))
        → plain_outcomes cs signals ≡ ok os
        → AreMet cs signals os
    outcomes-AreMet nil signals os h =
        subst (AreMet nil signals) (ok_injective h) (refl, refl, λ e. refl)
    outcomes-AreMet (cons c cs) signals os h =
        let (o, e, h') = and_then-ok (plain_outcome c signals) _ h in
        let (rest, f, g) = and_then-ok (plain_outcomes cs signals) _ h' in
        let first = outcome-IsMet c signals o e in
        let others = outcomes-AreMet cs signals rest f in
        subst (AreMet (cons c cs) signals) (ok_injective g) (
          ground (arith, first.0),
          ground (arith, others.1, first.0),
          λ t. missing_none o rest first.1 others.2 t,
        )

  -- If evaluating a condition from any faithful caches gives an outcome, its flag says whether the
  -- signals satisfy the condition, and an outcome that matched reports no missing evidence.
  pub evaluate_condition-satisfied :
      (c : Condition F) (cached : List (CachedSignal F)) (o : Outcome F)
      → All IsFaithful cached
      → (evaluate_condition c cached).0 ≡ ok o
      → (o.matched ≡ satisfied c (map (λ s. s.signal) cached)) × (o.matched ≡ true → o.missing ≡ [])
  evaluate_condition-satisfied c cached o v h =
      outcome-IsMet c (map (λ s. s.signal) cached) o
        (sym (evaluate_condition-plain_outcome c cached v).0 ∙ h)
