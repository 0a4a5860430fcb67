-- ===== src/Scoring/Detections/Total.antt =====
-- scoreMatches as a whole.
use hemera.Base.{
  Within-mono, suc, ◌≡◌, refl, sym, ◌∙◌, ap, subst, Bytes, some, ok, ◌>>=◌, List, [], Table, lookup,
  In, In-map, In-map_inv, Pairs, Pairs-imp, Unique, length, length-map, ◌==◌, true, arith,
}
use hemera.Float.{Float64}
use hemera.Rules.Schema.{Rule}
use hemera.Rules.Match.{MatchResult}
use hemera.Scoring.{Detection}
use hemera.Scoring.Detections.{
  RuleScore, detect_rules, index_matches, index_rules, base_scores, score_rules, rule_passes,
  rule_requires, detection_of, score_matches,
}
use hemera.Scoring.Eligibility.{eligible}
use hemera.Scoring.Detections.Tables.{
  rule_ids, match_ids, lookup-index_rules, index_matches_lem, score_rules_lem,
}
use hemera.Scoring.Detections.Correct.{detect_rules_lem}
use hemera.Scoring.Detections.Report.{IsExplained, IsAcyclic}
use hemera.Scoring.Detections.Explained.{IsHeld, explained}

module _ {F : Type 0} ⦃fl : Float64 F⦄ where
  -- scoreMatches, step by step
  score_matches_run :
      (rules : List (Rule F)) (matches : List (MatchResult F)) (by_id : Table (MatchResult F))
      (scores : Table (RuleScore F)) (ds : List (Detection F))
      → length matches ≡ length rules
      → index_matches [] matches ≡ ok by_id
      → score_rules by_id (base_scores matches []) rules [] ≡ ok scores
      → detect_rules
          (eligible
            (rule_passes by_id (index_rules rules []) scores)
            (rule_requires (index_rules rules []))
            (suc (length rules)))
          (detection_of by_id (base_scores matches []) scores)
          rules
          []
        ≡ ok ds
      → score_matches rules matches ≡ ok ds
  unfolding score_matches
  score_matches_run rules matches by_id scores ds counts e f g =
      let passed : (length matches == length rules) ≡ true = ground arith in
      rw passed (rw (e, ◌>>=◌) (rw (f, ◌>>=◌) g))

  -- On rules with unique identifiers, known dependencies and no cycle, and one match for each rule
  -- in the same order, scoreMatches returns one detection for each rule; a rule is detected exactly
  -- if its condition and evidence minimum are met, its evidence score is not below its minimum and
  -- everything that it requires is detected; its missing dependencies are exactly the requirements
  -- that are not detected, and where there are any its score is 0.
  pub score_matches-IsExplained :
      (rules : List (Rule F)) (matches : List (MatchResult F))
      → IsAcyclic rules
      → match_ids matches ≡ rule_ids rules
      → (ds : List (Detection F)) × (score_matches rules matches ≡ ok ds)
        × Pairs (IsExplained ds) rules ds
  unfolding lookup
  score_matches-IsExplained rules matches v same =
      let counts : length matches ≡ length rules =
        sym (length-map (λ (m : MatchResult F). m.rule_id) matches)
        ∙ ap length same
        ∙ length-map (λ (r : Rule F). r.id) rules in
      let (by_id, e, _, own) =
        index_matches_lem [] matches (subst Unique (sym same) v.unique) (λ id i. refl) in
      let bases = base_scores matches [] in
      let has_match : (r : Rule F)
          → In r rules
          → (m : MatchResult F) × (lookup r.id by_id ≡ some m) =
        λ r i.
          let (m, j, name) =
            In-map_inv (λ (x : MatchResult F). x.rule_id) r.id matches
              (subst (In r.id) (sym same) (In-map (λ (x : Rule F). x.id) r rules i)) in
          (m, subst (λ x. lookup x by_id ≡ some m) name (own m j)) in
      let (scores, f, _, _) =
        score_rules_lem by_id bases rules [] v.unique has_match (λ id i. refl) in
      let rule_by_id = index_rules rules [] in
      let held : (r : Rule F) → In r rules → IsHeld by_id bases scores rule_by_id r =
        λ r i. (lookup-index_rules r rules [] v.unique i, (has_match r i).0, (has_match r i).1) in
      let within = λ (id : Bytes) (i : In id (rule_ids rules)).
        Within-mono (rule_requires rule_by_id) (length rules) (suc (length rules)) id (omega arith)
          (v.within id i) in
      let (ds, g, report) =
        detect_rules_lem (rule_passes by_id rule_by_id scores) (rule_requires rule_by_id)
          (detection_of by_id bases scores) (suc (length rules)) rules []
          (λ r i. (
            within r.id (In-map (λ (x : Rule F). x.id) r rules i),
            λ d j. within d (v.known r i d j),
          ))
          (λ id b h. cc) in
      (
        ds,
        score_matches_run rules matches by_id scores ds counts e f g,
        Pairs-imp _ (IsExplained ds) rules ds
            (λ r d i j.
              explained by_id bases scores rule_by_id rules ds r d report (held r i) (v.known r i))
            report,
      )
