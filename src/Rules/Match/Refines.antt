-- ===== src/Rules/Match/Refines.antt =====
-- evaluateCondition of internal/rules/match.go against the plain outcome, which has no cache and no
-- accumulators.
use hemera.Base.{
  Bool, true, false, ◌&&◌, ◌||◌, ◌≡◌, refl, ap, ap₂, ◌∙◌, Bytes, Option, some, none, Result, ok,
  err, if◌then◌else◌, List, [], ◌∷◌, ◌++◌, map, All, arith, inl, inr, Bool-cases,
}
use mathlib.Core.List.{append-nil, append_assoc}
use hemera.Float.{Float64}
use hemera.Text.{Text}
use hemera.Model.{Signal}
use hemera.Rules.Schema.{
  Evidence, Condition, condition, Group, absent, present, Conditions, nil, cons,
}
use hemera.Rules.Pattern.{PatternError}
use hemera.Rules.Cache.{CachedSignal, PreparedEvidence, prepare_evidence, evidence_matches}
use hemera.Rules.Cache.Transparent.{IsFaithful, evidence_matches_lem}
use hemera.Rules.Match.{
  EvidenceMatch, Outcome, pure, keep_best, scan_prepared, signal_outcome, no_outcome, join_all,
  join_matched, join_partial, any_result, scan_signals, strongest_match, evaluate_condition,
  evaluate_group, evaluate_all, evaluate_any,
}
use hemera.Rules.Match.Plain.{
  and_then, all_matched, any_matched, all_evidence, all_missing, select, strongest, plain_found,
  plain_match, plain_outcome, plain_group, plain_outcomes, Answers, Answers-pure, Answers-bind,
  Answers-eq,
}

module _ {F : Type 0} where
  fold_all : Outcome F → List (Outcome F) → Outcome F
  fold_all o [] = o
  fold_all o (x ∷ os) = fold_all (join_all o x) os

  fold_any : Outcome F → Outcome F → List (Outcome F) → Outcome F
  fold_any m p [] = any_result m p
  fold_any m p (x ∷ os) = fold_any (join_matched m x) (join_partial p x) os

  abbrev outcome : Bool → List (EvidenceMatch F) → List Bytes → Outcome F
  outcome b es ms = record { matched = b; evidence = es; missing = ms }

  fold_all_lem :
      (o : Outcome F) (os : List (Outcome F))
      → fold_all o os
        ≡ outcome
            (o.matched && all_matched os)
            (o.evidence ++ all_evidence os)
            (o.missing ++ all_missing os)
  unfolding fold_all
  fold_all_lem o [] = ground (arith, append-nil o.evidence, append-nil o.missing)
  fold_all_lem o (x ∷ os) = ground (
    arith,
    fold_all_lem (join_all o x) os,
    append_assoc o.evidence x.evidence (all_evidence os),
    append_assoc o.missing x.missing (all_missing os),
  )

  fold_any_lem :
      (m p : Outcome F) (os : List (Outcome F))
      → p.matched ≡ false
      → fold_any m p os ≡ (
          if m.matched || any_matched os
          then outcome true (m.evidence ++ all_evidence (select true os)) m.missing
          else outcome false (p.evidence ++ all_evidence os) (p.missing ++ all_missing os))
  unfolding fold_any
  fold_any_lem m p [] h =
      ground (arith, append-nil m.evidence, append-nil p.evidence, append-nil p.missing)
  fold_any_lem m p (x ∷ os) h = elim (Bool-cases x.matched) [
    | inl hit ↦ rw hit (
        ground (
          arith,
          fold_any_lem (outcome true (m.evidence ++ x.evidence) m.missing) p os h,
          append_assoc m.evidence x.evidence (all_evidence (select true os)),
        ))
    | inr miss ↦ rw miss (
        ground (
          arith,
          fold_any_lem m (outcome p.matched (p.evidence ++ x.evidence) (p.missing ++ x.missing)) os
              h,
          append_assoc p.evidence x.evidence (all_evidence os),
          append_assoc p.missing x.missing (all_missing os),
        ))
  ]

and_then_congr :
    {A B : Type 0} (r : Result PatternError A) {f g : A → B}
    → ((a : A) → f a ≡ g a)
    → and_then r (λ a. ok (f a)) ≡ and_then r (λ a. ok (g a))
and_then_congr (ok a) h = ap ok (h a)
and_then_congr (err x) h = refl

module _ {F : Type 0} ⦃fl : Float64 F⦄ ⦃tx : Text⦄ where
  abbrev signals_of : List (CachedSignal F) → List (Signal F)
  signals_of = map (λ s. s.signal)

  scan_signals_lem :
      (p : PreparedEvidence F) (best : Option (Signal F)) (c : List (CachedSignal F))
      → All IsFaithful c
      → ((scan_signals p best c).0 ≡ strongest p best (signals_of c))
        × All IsFaithful (scan_signals p best c).1
        × (signals_of (scan_signals p best c).1 ≡ signals_of c)
  unfolding scan_signals
  scan_signals_lem p best [] v = (refl, tt, refl)
  scan_signals_lem p best (s ∷ c) (v, vs) =
      let first = evidence_matches_lem p s v in
      let best' = keep_best (evidence_matches p s).0 s.signal best in
      let (found, kept, same) = scan_signals_lem p best' c vs in
      (
        found ∙ ap (λ b. strongest p (keep_best b s.signal best) (signals_of c)) first.answer,
        (first.kept, kept),
        ap₂ (◌∷◌) first.same same,
      )

  scan_prepared-Answers :
      (e : Evidence F) (r : Result PatternError (PreparedEvidence F))
      → Answers (λ s. and_then r (λ p. ok (plain_found e (strongest p none s)))) (scan_prepared e r)
  scan_prepared-Answers e (err x) = record {
    answer = λ c v. refl;
    kept = λ c v. v;
    same = λ c v. refl;
  }
  scan_prepared-Answers e (ok p) = record {
    answer = λ c v. ap (λ b. ok (plain_found e b)) (scan_signals_lem p none c v).0;
    kept = λ c v. (scan_signals_lem p none c v).1;
    same = λ c v. (scan_signals_lem p none c v).2;
  }

  pub strongest_match-Answers : (e : Evidence F) → Answers (plain_match e) (strongest_match e)
  unfolding strongest_match plain_match
  strongest_match-Answers e = scan_prepared-Answers e (prepare_evidence e)

  -- the outcomes of `c ∷ cs`, then a function of them, with the first one taken out
  and_then-cons :
      {A : Type 0} (r : Result PatternError (Outcome F))
      (rs : Result PatternError (List (Outcome F))) (f : List (Outcome F) → A)
      → and_then r (λ o. and_then rs (λ os. ok (f (o ∷ os))))
        ≡ and_then (and_then r (λ o. and_then rs (λ os. ok (o ∷ os)))) (λ os. ok (f os))
  and_then-cons (ok o) (ok os) f = refl
  and_then-cons (ok o) (err x) f = refl
  and_then-cons (err x) rs f = refl

  mutual
    unfolding evaluate_condition plain_outcome fold_all fold_any

    evaluate_condition-Answers :
        (c : Condition F) → Answers (plain_outcome c) (evaluate_condition c)
    evaluate_condition-Answers (condition (some e) all any) =
        Answers-bind (plain_match e) (strongest_match e) (λ m _. ok (signal_outcome e m))
          (λ m. pure (signal_outcome e m)) (strongest_match-Answers e) (λ m. Answers-pure _)
    evaluate_condition-Answers (condition none all (present any)) =
        Answers-eq _ _ _
          (λ s.
            and_then_congr (plain_outcomes any s)
              (λ os. fold_any_lem (no_outcome false) (no_outcome false) os refl))
          (evaluate_any-Answers any (no_outcome false) (no_outcome false))
    evaluate_condition-Answers (condition none all absent) = evaluate_group-Answers all

    evaluate_group-Answers : (g : Group F) → Answers (plain_group g) (evaluate_group g)
    evaluate_group-Answers absent = Answers-pure _
    evaluate_group-Answers (present all) =
        Answers-eq _ _ _
          (λ s. and_then_congr (plain_outcomes all s) (λ os. fold_all_lem (no_outcome true) os))
          (evaluate_all-Answers all (no_outcome true))

    evaluate_all-Answers :
        (cs : Conditions F) (o : Outcome F)
        → Answers
            (λ s. and_then (plain_outcomes cs s) (λ os. ok (fold_all o os)))
            (evaluate_all cs o)
    evaluate_all-Answers nil o = Answers-pure o
    evaluate_all-Answers (cons c cs) o =
        Answers-eq _ _ _ (λ s. and_then-cons (plain_outcome c s) (plain_outcomes cs s) (fold_all o))
          (Answers-bind (plain_outcome c) (evaluate_condition c)
            (λ x s. and_then (plain_outcomes cs s) (λ os. ok (fold_all (join_all o x) os)))
            (λ x. evaluate_all cs (join_all o x)) (evaluate_condition-Answers c)
            (λ x. evaluate_all-Answers cs (join_all o x)))

    evaluate_any-Answers :
        (cs : Conditions F) (m p : Outcome F)
        → Answers
            (λ s. and_then (plain_outcomes cs s) (λ os. ok (fold_any m p os)))
            (evaluate_any cs m p)
    evaluate_any-Answers nil m p = Answers-pure _
    evaluate_any-Answers (cons c cs) m p =
        Answers-eq _ _ _
          (λ s. and_then-cons (plain_outcome c s) (plain_outcomes cs s) (fold_any m p))
          (Answers-bind (plain_outcome c) (evaluate_condition c)
            (λ x s.
              and_then (plain_outcomes cs s)
                (λ os. ok (fold_any (join_matched m x) (join_partial p x) os)))
            (λ x. evaluate_any cs (join_matched m x) (join_partial p x))
            (evaluate_condition-Answers c)
            (λ x. evaluate_any-Answers cs (join_matched m x) (join_partial p x)))

  -- Evaluating a condition against signals with any faithful case-fold caches gives the outcome, or
  -- the error, that is computed from the plain signals alone, and leaves faithful caches of the
  -- same signals.
  pub evaluate_condition-plain_outcome :
      (c : Condition F) (cached : List (CachedSignal F))
      → All IsFaithful cached
      → ((evaluate_condition c cached).0 ≡ plain_outcome c (map (λ s. s.signal) cached))
        × All IsFaithful (evaluate_condition c cached).1
        × (map (λ s. s.signal) (evaluate_condition c cached).1 ≡ map (λ s. s.signal) cached)
  evaluate_condition-plain_outcome c cached v =
      let h = evaluate_condition-Answers c in (h.answer cached v, h.kept cached v, h.same cached v)
