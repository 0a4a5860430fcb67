-- ===== src/Rules/Match/Plain.antt =====
-- What matching computes, as a function of the plain signals: no cache and no accumulators. The
-- outcome of a group is a function of the outcomes of all its children.
use hemera.Base.{
  Bool, true, false, ◌&&◌, ◌||◌, ◌≡◌, refl, ap, ◌∙◌, Bytes, Option, some, none, Result, ok, err,
  if◌then◌else◌, List, [], ◌∷◌, ◌++◌, map, All,
}
use hemera.Float.{Float64}
use hemera.Text.{Text}
use hemera.Model.{Signal}
use hemera.Rules.Schema.{
  Evidence, Condition, condition, Group, absent, present, Conditions, nil, cons,
}
use hemera.Rules.Pattern.{PatternError}
use hemera.Rules.Cache.{CachedSignal, PreparedEvidence, prepare_evidence}
use hemera.Rules.Cache.Transparent.{IsFaithful, evidence_holds}
use hemera.Rules.Match.{
  EvidenceMatch, Outcome, Matching, ◌>>=◌, pure, keep_best, evidence_match, signal_outcome,
  no_outcome,
}

-- `bind` and `result` of plain results.
abbrev pub and_then : {E A B : Type 0} → Result E A → (A → Result E B) → Result E B
and_then (ok a) f = f a
and_then (err e) f = err e

pub and_then-ok :
    {E A B : Type 0} (r : Result E A) (f : A → Result E B) {b : B}
    → and_then r f ≡ ok b
    → (a : A) × (r ≡ ok a) × (f a ≡ ok b)
and_then-ok (ok a) f h = (a, refl, h)
and_then-ok (err x) f h = cc

module _ {F : Type 0} where
  abbrev pub all_matched : List (Outcome F) → Bool
  all_matched [] = true
  all_matched (o ∷ os) = o.matched && all_matched os

  abbrev pub any_matched : List (Outcome F) → Bool
  any_matched [] = false
  any_matched (o ∷ os) = o.matched || any_matched os

  abbrev pub all_evidence : List (Outcome F) → List (EvidenceMatch F)
  all_evidence [] = []
  all_evidence (o ∷ os) = o.evidence ++ all_evidence os

  abbrev pub all_missing : List (Outcome F) → List Bytes
  all_missing [] = []
  all_missing (o ∷ os) = o.missing ++ all_missing os

  -- the outcomes of the children that matched, or of the others
  abbrev pub select : Bool → List (Outcome F) → List (Outcome F)
  select b [] = []
  select true (o ∷ os) = if o.matched then o ∷ select true os else select true os
  select false (o ∷ os) = if o.matched then select false os else o ∷ select false os

  abbrev pub all_outcome : List (Outcome F) → Outcome F
  all_outcome os = record {
    matched = all_matched os;
    evidence = all_evidence os;
    missing = all_missing os;
  }

  abbrev pub any_outcome : List (Outcome F) → Outcome F
  any_outcome os =
      if any_matched os
      then record { matched = true; evidence = all_evidence (select true os); missing = [] }
      else record { matched = false; evidence = all_evidence os; missing = all_missing os }

module _ {F : Type 0} ⦃fl : Float64 F⦄ ⦃tx : Text⦄ where
  abbrev pub strongest :
      PreparedEvidence F → Option (Signal F) → List (Signal F) → Option (Signal F)
  strongest p best [] = best
  strongest p best (s ∷ rest) = strongest p (keep_best (evidence_holds p s) s best) rest

  abbrev pub plain_found : Evidence F → Option (Signal F) → Option (EvidenceMatch F)
  plain_found e none = none
  plain_found e (some s) = some (evidence_match e s)

  unfoldable pub plain_match :
      Evidence F → List (Signal F) → Result PatternError (Option (EvidenceMatch F))
  plain_match e signals =
      and_then (prepare_evidence e) (λ p. ok (plain_found e (strongest p none signals)))

  unfoldable mutual
    pub plain_outcome : Condition F → List (Signal F) → Result PatternError (Outcome F)
    plain_outcome (condition (some e) all any) signals =
        and_then (plain_match e signals) (λ m. ok (signal_outcome e m))
    plain_outcome (condition none all (present any)) signals =
        and_then (plain_outcomes any signals) (λ os. ok (any_outcome os))
    plain_outcome (condition none all absent) signals = plain_group all signals

    pub plain_group : Group F → List (Signal F) → Result PatternError (Outcome F)
    plain_group absent signals = ok (no_outcome true)
    plain_group (present all) signals =
        and_then (plain_outcomes all signals) (λ os. ok (all_outcome os))

    -- the outcomes of the children in order, or the first error
    pub plain_outcomes : Conditions F → List (Signal F) → Result PatternError (List (Outcome F))
    plain_outcomes nil signals = ok []
    plain_outcomes (cons c cs) signals =
        and_then (plain_outcome c signals)
          (λ o. and_then (plain_outcomes cs signals) (λ os. ok (o ∷ os)))

  -- A cached computation that gives the plain result for the signals behind the cache, and leaves
  -- caches that are faithful to the same signals.
  pub record Answers {A : Type 0} (plain : List (Signal F) → Result PatternError A)
      (m : Matching F A) : Type 0 where
    pub answer :
        (c : List (CachedSignal F)) → All IsFaithful c → (m c).0 ≡ plain (map (λ s. s.signal) c)
    pub kept : (c : List (CachedSignal F)) → All IsFaithful c → All IsFaithful (m c).1
    pub same :
        (c : List (CachedSignal F))
        → All IsFaithful c
        → map (λ s. s.signal) (m c).1 ≡ map (λ s. s.signal) c

  pub Answers-pure : {A : Type 0} (a : A) → Answers (λ _. ok a) (pure a)
  Answers-pure a = record { answer = λ c v. refl; kept = λ c v. v; same = λ c v. refl }

  pub Answers-bind :
      {A B : Type 0} (p : List (Signal F) → Result PatternError A) (m : Matching F A)
      (q : A → List (Signal F) → Result PatternError B) (k : A → Matching F B)
      → Answers p m
      → ((a : A) → Answers (q a) (k a))
      → Answers (λ s. and_then (p s) (λ a. q a s)) (m >>= k)
  Answers-bind {A} {B} p m q k h g = record {
    answer = λ c v. (cases (p (signals c)) (m c) c (h.answer c v) (h.kept c v) (h.same c v)).0;
    kept = λ c v. (cases (p (signals c)) (m c) c (h.answer c v) (h.kept c v) (h.same c v)).1;
    same = λ c v. (cases (p (signals c)) (m c) c (h.answer c v) (h.kept c v) (h.same c v)).2;
  }
    where
      signals : List (CachedSignal F) → List (Signal F)
      signals = map (λ s. s.signal)

      cases :
          (r : Result PatternError A) (x : Result PatternError A × List (CachedSignal F))
          (c : List (CachedSignal F))
          → x.0 ≡ r
          → All IsFaithful x.1
          → signals x.1 ≡ signals c
          → ((◌>>=◌ (λ _. x) k c).0 ≡ and_then r (λ a. q a (signals c)))
            × All IsFaithful (◌>>=◌ (λ _. x) k c).1
            × (signals (◌>>=◌ (λ _. x) k c).1 ≡ signals c)
      cases r (ok a, c') c e v w = (
        (g a).answer c' v ∙ ap (q a) w ∙ ap (λ t. and_then t (λ b. q b (signals c))) e,
        (g a).kept c' v,
        (g a).same c' v ∙ w,
      )
      cases r (err x, c') c e v w = (ap (λ t. and_then t (λ b. q b (signals c))) e, v, w)

  pub Answers-eq :
      {A : Type 0} (p q : List (Signal F) → Result PatternError A) (m : Matching F A)
      → ((s : List (Signal F)) → p s ≡ q s)
      → Answers p m
      → Answers q m
  Answers-eq p q m e h = record {
    answer = λ c v. h.answer c v ∙ e (map (λ s. s.signal) c);
    kept = h.kept;
    same = h.same;
  }
