-- ===== src/Rules/Coverage.antt =====
-- internal/rules/condition_coverage.go: what a condition and a rule can still come to when some sources
-- were not observed completely. `complete` is the CapabilityCompleter.
pub mod Logic
pub mod Sound
use hemera.Base.{
  ℕ, zero, suc, ◌+◌, ◌/◌, ◌%◌, ltb, leb, length, Bool, true, false, ◌&&◌, ◌||◌, not, Bytes, bytes,
  bytes_eq, Option, some, none, Result, if◌then◌else◌, List, [], ◌∷◌, ◌++◌, map, ◌==◌, Table,
  lookup, put,
}
use hemera.Float.{Float64}
use hemera.Text.{Text}
use hemera.Model.{SignalType, Signal}
use hemera.Sorted.{deduplicate_sorted}
use hemera.Rules.Schema.{
  Evidence, Condition, condition, Group, absent, present, Conditions, nil, cons, Rule,
}
use hemera.Rules.Pattern.{PatternError}
use hemera.Rules.Cache.{CachedSignal, uncached}
use hemera.Rules.Match.{EvidenceMatch, Matching, ◌>>=◌, pure, strongest_match}
use hemera.Rules.Capabilities.{CapabilityRegistry, capable_sources}

pub data CoverageState : Type 0 where
  not_matched matched unknown : CoverageState

abbrev pub is_matched : CoverageState → Bool
is_matched matched = true
is_matched not_matched = false
is_matched unknown = false

abbrev pub is_unknown : CoverageState → Bool
is_unknown unknown = true
is_unknown not_matched = false
is_unknown matched = false

pub record PotentialEvidence (F : Type 0) : Type 0 where
  pub id : Bytes
  pub group : Bytes
  pub score : F
  pub incomplete_sources : List Bytes
  pub is_unknown : Bool

-- ConditionCoverageResult
pub record CoverageResult (F : Type 0) : Type 0 where
  pub state : CoverageState
  pub can_be_satisfied : Bool
  pub potential_evidence : List (PotentialEvidence F)
  pub incomplete_sources : List Bytes
  pub required_sources : List Bytes

-- The local variables of the two loops over children. The loop for `all` leaves by itself on a child
-- that cannot be satisfied, so it needs no flag for that.
pub record Children (F : Type 0) : Type 0 where
  pub potential : List (PotentialEvidence F)
  pub incomplete : List Bytes
  pub required : List Bytes
  pub has_matched : Bool
  pub has_unknown : Bool
  pub satisfiable : Bool

module _ {F : Type 0} where
  abbrev pub no_children : Children F
  no_children = record {
    potential = [];
    incomplete = [];
    required = [];
    has_matched = false;
    has_unknown = false;
    satisfiable = false;
  }

  abbrev pub unsatisfiable : List Bytes → CoverageResult F
  unsatisfiable required = record {
    state = not_matched;
    can_be_satisfied = false;
    potential_evidence = [];
    incomplete_sources = [];
    required_sources = required;
  }

  abbrev require : Children F → CoverageResult F → Children F
  require acc child = record acc { required = acc.required ++ child.required_sources }

  -- one round of the loop for `all`, on a child that can be satisfied
  abbrev pub cover_conjunct : Children F → CoverageResult F → Children F
  cover_conjunct acc child = record (require acc child) {
    has_unknown = acc.has_unknown || is_unknown child.state;
    incomplete =
        if is_unknown child.state
        then acc.incomplete ++ child.incomplete_sources
        else acc.incomplete;
    potential = acc.potential ++ child.potential_evidence;
  }

  -- one round of the loop for `any`
  abbrev pub cover_disjunct : Children F → CoverageResult F → Children F
  cover_disjunct acc child =
      if child.can_be_satisfied
      then record (require acc child) {
        satisfiable = true;
        has_matched = acc.has_matched || is_matched child.state;
        has_unknown = acc.has_unknown || is_unknown child.state;
        potential = acc.potential ++ child.potential_evidence;
        incomplete = acc.incomplete ++ child.incomplete_sources;
      }
      else require acc child

  abbrev reachable : CoverageState → Children F → CoverageResult F
  reachable state acc = record {
    state = state;
    can_be_satisfied = true;
    potential_evidence = acc.potential;
    incomplete_sources = deduplicate_sorted acc.incomplete;
    required_sources = deduplicate_sorted acc.required;
  }

  abbrev pub conjunction : Children F → CoverageResult F
  conjunction acc = reachable (if acc.has_unknown then unknown else matched) acc

  abbrev pub disjunction : Children F → CoverageResult F
  disjunction acc =
      if not acc.satisfiable
      then unsatisfiable (deduplicate_sorted acc.required)
      else reachable (if acc.has_unknown || not acc.has_matched then unknown else matched) acc

module _ (complete : Bytes → SignalType → Bool) where
  -- the loop over the capable sources
  unfoldable pub incomplete_of : SignalType → List Bytes → List Bytes
  incomplete_of t [] = []
  incomplete_of t (s ∷ ss) =
      if not (complete s t) then s ∷ incomplete_of t ss else incomplete_of t ss

module _ {F : Type 0} ⦃fl : Float64 F⦄ ⦃tx : Text⦄ (r : CapabilityRegistry)
    (complete : Bytes → SignalType → Bool) where
  abbrev pub cover_missing : Evidence F → List Bytes → List Bytes → CoverageResult F
  cover_missing e capable [] = unsatisfiable capable
  cover_missing e capable (s ∷ ss) = record {
    state = unknown;
    can_be_satisfied = true;
    potential_evidence =
        record {
          id = e.id;
          group = e.group;
          score = e.weight;
          incomplete_sources = deduplicate_sorted (s ∷ ss);
          is_unknown = true;
        }
        ∷ [];
    incomplete_sources = deduplicate_sorted (s ∷ ss);
    required_sources = capable;
  }

  -- the case of a signal, after strongestMatch
  abbrev pub cover_evidence : Evidence F → Option (EvidenceMatch F) → CoverageResult F
  cover_evidence e (some m) = record {
    state = matched;
    can_be_satisfied = true;
    potential_evidence =
        record {
          id = e.id;
          group = e.group;
          score = fl.mul e.weight m.signal.confidence;
          incomplete_sources = [];
          is_unknown = false;
        }
        ∷ [];
    incomplete_sources = [];
    required_sources = capable_sources r e;
  }
  cover_evidence e none =
      cover_missing e (capable_sources r e) (incomplete_of complete e.type (capable_sources r e))

  unfoldable mutual
    -- evaluateConditionCoverageCached
    pub cover_condition : Condition F → Matching F (CoverageResult F)
    cover_condition (condition (some e) all any) = do
      m ← strongest_match e
      pure (cover_evidence e m)
    cover_condition (condition none all (present any)) = cover_any any no_children
    cover_condition (condition none all absent) = cover_group all

    pub cover_group : Group F → Matching F (CoverageResult F)
    cover_group absent = pure (conjunction no_children)
    cover_group (present all) = cover_all all no_children

    -- a child that cannot be satisfied ends the loop
    pub cover_all : Conditions F → Children F → Matching F (CoverageResult F)
    cover_all nil acc = pure (conjunction acc)
    cover_all (cons c cs) acc = do
      child ← cover_condition c
      if not child.can_be_satisfied
          then pure (unsatisfiable (deduplicate_sorted (acc.required ++ child.required_sources)))
          else cover_all cs (cover_conjunct acc child)

    pub cover_any : Conditions F → Children F → Matching F (CoverageResult F)
    cover_any nil acc = pure (disjunction acc)
    cover_any (cons c cs) acc = do
      child ← cover_condition c
      cover_any cs (cover_disjunct acc child)

  -- EvaluateConditionCoverage
  unfoldable pub evaluate_condition_coverage :
      Condition F → List (Signal F) → Result PatternError (CoverageResult F)
  evaluate_condition_coverage c signals = (cover_condition c (map uncached signals)).0

-- strconv.Itoa, on fuel above the number
unfoldable pub decimal_from : ℕ → ℕ → Bytes
decimal_from zero n = []
decimal_from (suc fuel) n =
    let high = decimal_from fuel (n / 10) in
    if ltb n 10 then (b'0' + n) ∷ [] else high ++ ((b'0' + n % 10) ∷ [])

-- groupKey of the evidence at position `i`
unfoldable pub group_key : {F : Type 0} → ℕ → PotentialEvidence F → Bytes
group_key i e =
    if bytes_eq e.group [] then bytes "__independent_" ++ decimal_from (suc i) i else e.group

pub record GroupSummary (F : Type 0) : Type 0 where
  pub max_score : F
  pub incomplete_sources : List Bytes

module _ {F : Type 0} ⦃fl : Float64 F⦄ where
  abbrev pub known_summary : Option (GroupSummary F) → GroupSummary F
  known_summary (some g) = g
  known_summary none = record { max_score = fl.of_ℕ 0; incomplete_sources = [] }

  abbrev pub summarize : PotentialEvidence F → GroupSummary F → GroupSummary F
  summarize e g = record {
    max_score = if fl.lt g.max_score e.score then e.score else g.max_score;
    incomplete_sources =
        if e.is_unknown then g.incomplete_sources ++ e.incomplete_sources else g.incomplete_sources;
  }

  -- the loop that fills `groups`, from the evidence at position `i`
  unfoldable pub group_evidence :
      ℕ → List (PotentialEvidence F) → Table (GroupSummary F) → Table (GroupSummary F)
  group_evidence i [] groups = groups
  group_evidence i (e ∷ es) groups =
      let key = group_key i e in
      group_evidence (suc i) es (put key (summarize e (known_summary (lookup key groups))) groups)

  -- The loop over `groups`. Go leaves the order of a map open; here it is that of the first
  -- evidence of each group.
  unfoldable pub add_groups : Table (GroupSummary F) → F → List Bytes → F × List Bytes
  add_groups [] score incomplete = (score, incomplete)
  add_groups ((_, g) ∷ gs) score incomplete =
      add_groups gs (fl.add score g.max_score) (incomplete ++ g.incomplete_sources)

  abbrev pub bound_score : F → F
  bound_score x =
      let y = if fl.lt x (fl.of_ℕ 0) then fl.of_ℕ 0 else x in
      if fl.lt (fl.of_ℕ 100) y then fl.of_ℕ 100 else y

  -- EvaluateRuleCoverage
  unfoldable pub evaluate_rule_coverage :
      Rule F → CoverageResult F → Bool → F → CoverageState × List Bytes
  evaluate_rule_coverage rule result detected penalties =
      let groups = group_evidence 0 result.potential_evidence [] in
      let (score, incomplete) = add_groups groups (fl.of_ℕ 0) [] in
      let upper = bound_score (fl.sub score penalties) in
      if detected
      then (matched, [])
      else if not result.can_be_satisfied
      then (not_matched, [])
      else if not (fl.le rule.minimum_score upper && leb rule.minimum_evidence (length groups))
      then (not_matched, [])
      else (unknown, deduplicate_sorted incomplete)
