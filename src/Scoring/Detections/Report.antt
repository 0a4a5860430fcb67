-- ===== src/Scoring/Detections/Report.antt =====
-- What a report of scoreMatches, internal/scoring/scoring.go, has to say of each rule, in terms of
-- the other detections of the same report, and the rule sets that it is given.
use hemera.Base.{Within, true, false, ◌≡◌, ◌≢◌, ◌↔◌, Bytes, List, [], ◌∷◌, In, Unique, length}
use hemera.Float.{Float64}
use hemera.Rules.Schema.{Rule}
use hemera.Scoring.{Detection, level_for_score}
use hemera.Scoring.Detections.{index_rules, rule_requires}
use hemera.Scoring.Detections.Tables.{rule_ids}

module _ {F : Type 0} ⦃fl : Float64 F⦄ where
  -- The rule named `id` is reported as detected.
  abbrev pub Detected : List (Detection F) → Bytes → Type 0
  Detected ds id = (d : Detection F) × In d ds × (d.rule_id ≡ id) × (d.detected ≡ true)

  -- The members of `requires` that are not reported as detected, in order.
  pub data MissingFrom (ds : List (Detection F)) : List Bytes → List Bytes → Type 0 where
    none_left : MissingFrom ds [] []
    met :
        {id : Bytes} {ids ms : List Bytes}
        → Detected ds id
        → MissingFrom ds ids ms
        → MissingFrom ds (id ∷ ids) ms
    missed :
        {id : Bytes} {ids ms : List Bytes}
        → ¬ (Detected ds id)
        → MissingFrom ds ids ms
        → MissingFrom ds (id ∷ ids) (id ∷ ms)

  -- What a report `ds` says of the rule `r` in its detection `d`.
  pub record IsExplained (ds : List (Detection F)) (r : Rule F) (d : Detection F) : Type 0 where
    pub identified : d.rule_id ≡ r.id
    pub detected_iff : (d.detected ≡ true) ↔ (
        (d.condition_matched ≡ true)
        × (d.minimum_evidence_met ≡ true)
        × (fl.lt d.evidence_score r.minimum_score ≡ false)
        × ((id : Bytes) → In id r.requires → Detected ds id))
    pub missing_exact : MissingFrom ds r.requires d.missing_dependencies
    pub score_kept : d.missing_dependencies ≡ [] → d.score ≡ d.evidence_score
    pub score_dropped : d.missing_dependencies ≢ [] → d.score ≡ fl.of_ℕ 0
    pub levelled : d.level ≡ level_for_score d.score

  -- The rule set that scoreMatches is given: unique identifiers, known dependencies without cycles.
  pub record IsAcyclic (rules : List (Rule F)) : Type 0 where
    pub unique : Unique (rule_ids rules)
    pub known : (r : Rule F) → In r rules → (id : Bytes) → In id r.requires → In id (rule_ids rules)
    pub within :
        (id : Bytes)
        → In id (rule_ids rules)
        → Within (rule_requires (index_rules rules [])) (length rules) id
