-- ===== src/Rules/Match.antt =====
-- internal/rules/match.go: matching of one rule against the signals of a scan. The slice of cached
-- signals, which the source shares by reference between all predicates, is the state of `Matching`.
pub mod Plain
pub mod Refines
pub mod Meaning
pub mod Strongest
pub mod Document
use hemera.Base.{
  ℕ, Bool, true, false, ◌&&◌, not, Bytes, bytes_eq, bytes_lt, has, Option, some, none, Result, ok,
  err, if◌then◌else◌, List, [], ◌∷◌, ◌++◌, leb, length, map,
}
use hemera.Float.{Float64, float_ne}
use hemera.Text.{Text}
use hemera.Model.{Signal}
use hemera.Rules.Schema.{
  Evidence, Condition, condition, Group, absent, present, Conditions, nil, cons, Rule,
  evidence_group,
}
use hemera.Rules.Pattern.{PatternError}
use hemera.Rules.Cache.{CachedSignal, PreparedEvidence, prepare_evidence, evidence_matches}

pub record EvidenceMatch (F : Type 0) : Type 0 where
  pub evidence_id : Bytes
  pub group : Bytes
  pub description : Bytes
  pub weight : F
  pub signal : Signal F

pub record MatchResult (F : Type 0) : Type 0 where
  pub rule_id : Bytes
  pub condition_matched : Bool
  pub minimum_evidence_met : Bool
  pub positive_evidence : List (EvidenceMatch F)
  pub negative_evidence : List (EvidenceMatch F)
  pub ambiguous_evidence : List (EvidenceMatch F)
  pub missing_positive_evidence : List Bytes

-- MatchResult.Candidate
unfoldable pub is_candidate : {F : Type 0} → MatchResult F → Bool
is_candidate m = m.condition_matched && m.minimum_evidence_met

-- conditionOutcome
pub record Outcome (F : Type 0) : Type 0 where
  pub matched : Bool
  pub evidence : List (EvidenceMatch F)
  pub missing : List Bytes

abbrev pub Matching : Type 0 → Type 0 → Type 0
Matching F A = List (CachedSignal F) → Result PatternError A × List (CachedSignal F)

abbrev continue :
    {F A B : Type 0}
    → (A → Matching F B)
    → Result PatternError A × List (CachedSignal F)
    → Result PatternError B × List (CachedSignal F)
continue f (ok a, signals) = f a signals
continue f (err e, signals) = (err e, signals)

infixl 5 ◌>>=◌
abbrev pub ◌>>=◌ : {F A B : Type 0} → Matching F A → (A → Matching F B) → Matching F B
◌>>=◌ m f signals = continue f (m signals)

abbrev pub pure : {F A : Type 0} → A → Matching F A
pure a signals = (ok a, signals)

-- countEvidenceGroups: the size of the set of groups
abbrev pub add_group : {F : Type 0} → List Bytes → List (EvidenceMatch F) → List Bytes
add_group groups [] = groups
add_group groups (m ∷ ms) =
    add_group (if has m.group groups then groups else groups ++ (m.group ∷ [])) ms

unfoldable pub count_evidence_groups : {F : Type 0} → List (EvidenceMatch F) → ℕ
count_evidence_groups ms = length (add_group [] ms)

abbrev pub fields_before : List Bytes → List Bytes → Bool
fields_before (a ∷ as') (b ∷ bs) = if not (bytes_eq a b) then bytes_lt a b else fields_before as' bs
fields_before _ _ = false

module _ {F : Type 0} ⦃fl : Float64 F⦄ where
  -- strongerSignal
  unfoldable pub stronger_signal : Signal F → Signal F → Bool
  stronger_signal candidate current =
      if float_ne candidate.confidence current.confidence
      then fl.lt current.confidence candidate.confidence
      else fields_before
          (candidate.type ∷ candidate.source ∷ candidate.key ∷ candidate.value ∷ candidate.url ∷ [])
          (current.type ∷ current.source ∷ current.key ∷ current.value ∷ current.url ∷ [])

  -- `best == -1 || strongerSignal(signals[i].signal, signals[best].signal)`
  abbrev pub improves : Signal F → Option (Signal F) → Bool
  improves s none = true
  improves s (some best) = stronger_signal s best

  abbrev pub keep_best : Bool → Signal F → Option (Signal F) → Option (Signal F)
  keep_best held s best = if held && improves s best then some s else best

abbrev pub evidence_match : {F : Type 0} → Evidence F → Signal F → EvidenceMatch F
evidence_match e s = record {
  evidence_id = e.id;
  group = evidence_group e;
  description = e.description;
  weight = e.weight;
  signal = s;
}

module _ {F : Type 0} where
  -- the outcome of a single predicate
  abbrev pub signal_outcome : Evidence F → Option (EvidenceMatch F) → Outcome F
  signal_outcome e none = record { matched = false; evidence = []; missing = e.id ∷ [] }
  signal_outcome e (some m) = record { matched = true; evidence = m ∷ []; missing = [] }

  abbrev pub no_outcome : Bool → Outcome F
  no_outcome b = record { matched = b; evidence = []; missing = [] }

  -- one round of the loop for `all`
  abbrev pub join_all : Outcome F → Outcome F → Outcome F
  join_all o child = record {
    matched = o.matched && child.matched;
    evidence = o.evidence ++ child.evidence;
    missing = o.missing ++ child.missing;
  }

  -- one round of the loop for `any`, on the outcomes `matched` and `partial`
  abbrev pub join_matched : Outcome F → Outcome F → Outcome F
  join_matched o child =
      if child.matched
      then record o { matched = true; evidence = o.evidence ++ child.evidence }
      else o

  abbrev pub join_partial : Outcome F → Outcome F → Outcome F
  join_partial o child = if child.matched then o else record o {
    evidence = o.evidence ++ child.evidence;
    missing = o.missing ++ child.missing;
  }

  abbrev pub any_result : Outcome F → Outcome F → Outcome F
  any_result matched partial = if matched.matched then matched else partial

  abbrev pub add_match : Option (EvidenceMatch F) → List (EvidenceMatch F) → List (EvidenceMatch F)
  add_match none ms = ms
  add_match (some m) ms = ms ++ (m ∷ [])

module _ {F : Type 0} ⦃fl : Float64 F⦄ ⦃tx : Text⦄ where
  -- the loop of strongestMatch; `best` is the signal at the source's index
  unfoldable pub scan_signals :
      PreparedEvidence F
      → Option (Signal F)
      → List (CachedSignal F)
      → Option (Signal F) × List (CachedSignal F)
  scan_signals p best [] = (best, [])
  scan_signals p best (s ∷ rest) =
      let (held, s') = evidence_matches p s in
      let (found, rest') = scan_signals p (keep_best held s.signal best) rest in (found, s' ∷ rest')

  abbrev scan_prepared :
      Evidence F → Result PatternError (PreparedEvidence F) → Matching F (Option (EvidenceMatch F))
  scan_prepared e (err x) signals = (err x, signals)
  scan_prepared e (ok p) signals =
      let (found, signals') = scan_signals p none signals in
      (ok (elim found [ none ↦ none | some s ↦ some (evidence_match e s) ]), signals')

  -- strongestMatch
  unfoldable pub strongest_match : Evidence F → Matching F (Option (EvidenceMatch F))
  strongest_match e = scan_prepared e (prepare_evidence e)

  unfoldable mutual
    -- evaluateCondition
    pub evaluate_condition : Condition F → Matching F (Outcome F)
    evaluate_condition (condition (some e) all any) = do
      m ← strongest_match e
      pure (signal_outcome e m)
    evaluate_condition (condition none all (present any)) =
        evaluate_any any (no_outcome false) (no_outcome false)
    evaluate_condition (condition none all absent) = evaluate_group all

    pub evaluate_group : Group F → Matching F (Outcome F)
    evaluate_group absent = pure (no_outcome true)
    evaluate_group (present all) = evaluate_all all (no_outcome true)

    pub evaluate_all : Conditions F → Outcome F → Matching F (Outcome F)
    evaluate_all nil o = pure o
    evaluate_all (cons c cs) o = do child ← evaluate_condition c; evaluate_all cs (join_all o child)

    pub evaluate_any : Conditions F → Outcome F → Outcome F → Matching F (Outcome F)
    evaluate_any nil matched partial = pure (any_result matched partial)
    evaluate_any (cons c cs) matched partial = do
      child ← evaluate_condition c
      evaluate_any cs (join_matched matched child) (join_partial partial child)

  -- the loop of matchEvidenceList
  unfoldable pub match_evidence_from :
      List (EvidenceMatch F) → List (Evidence F) → Matching F (List (EvidenceMatch F))
  match_evidence_from ms [] = pure ms
  match_evidence_from ms (e ∷ es) = do
    m ← strongest_match e
    match_evidence_from (add_match m ms) es

  -- matchEvidenceList
  unfoldable pub match_evidence_list : List (Evidence F) → Matching F (List (EvidenceMatch F))
  unfolding match_evidence_from
  match_evidence_list = match_evidence_from []

  -- the body of the loop of Match over the rules
  unfoldable pub match_rule : Rule F → Matching F (MatchResult F)
  match_rule rule = do
    outcome ← evaluate_condition rule.match
    negative ← match_evidence_list rule.negative_evidence
    ambiguous ← match_evidence_list rule.ambiguous_evidence
    pure (record {
      rule_id = rule.id;
      condition_matched = outcome.matched;
      minimum_evidence_met = leb rule.minimum_evidence (count_evidence_groups outcome.evidence);
      positive_evidence = outcome.evidence;
      negative_evidence = negative;
      ambiguous_evidence = ambiguous;
      missing_positive_evidence = outcome.missing;
    })

  unfoldable pub match_rules : List (Rule F) → Matching F (List (MatchResult F))
  match_rules [] = pure []
  match_rules (rule ∷ rules) = do
    result ← match_rule rule
    results ← match_rules rules
    pure (result ∷ results)
