-- ===== src/Scoring/Detections/Explained.antt =====
-- The last loop of scoreMatches, internal/scoring/scoring.go, against what a report has to say.
use hemera.Base.{
  Bool, true, false, ◌&&◌, not, ◌≡◌, ◌≢◌, ◌↔◌, refl, sym, ◌∙◌, ap, subst, Bytes, some, List, [],
  ◌∷◌, Table, lookup, In, In-map_inv, Pairs, Pairs-left, Pairs-right, inl, inr, arith,
}
use hemera.Float.{Float64}
use hemera.Rules.Schema.{Rule}
use hemera.Rules.Match.{MatchResult, is_candidate}
use hemera.Scoring.{Detection, level_for_score}
use hemera.Scoring.Detections.{RuleEvidence, RuleScore, rule_passes, rule_requires, detection_of}
use hemera.Scoring.Eligibility.Correct.{Eligible, eligible_by, passes_of, below_of, Decides}
use hemera.Scoring.Detections.Tables.{rule_ids}
use hemera.Scoring.Detections.Correct
use hemera.Scoring.Detections.Correct.{
  Missing, Missing-none, Missing-all, Reports, detect_rules_lem,
}
use hemera.Scoring.Detections.Report.{Detected, MissingFrom, IsExplained}

-- The maps of scoreMatches after its first loops.
module _ {F : Type 0} ⦃fl : Float64 F⦄ (by_id : Table (MatchResult F))
    (bases : Table (RuleEvidence F)) (scores : Table (RuleScore F))
    (rule_by_id : Table (Rule F)) where
  abbrev pub passes : Bytes → Bool
  passes = rule_passes by_id rule_by_id scores

  abbrev pub requires : Bytes → List Bytes
  requires = rule_requires rule_by_id

  abbrev pub detection : Rule F → List Bytes → Bool → Detection F
  detection = detection_of by_id bases scores

  abbrev pub IsHeld : Rule F → Type 0
  IsHeld r = (lookup r.id rule_by_id ≡ some r) × (m : MatchResult F) × (lookup r.id by_id ≡ some m)

  passes_lem :
      (r : Rule F) (ms : List Bytes) (b : Bool)
      → IsHeld r
      → let d = detection r ms b in
        passes r.id ≡ (
          (d.condition_matched && d.minimum_evidence_met)
          && not (fl.lt d.evidence_score r.minimum_score))
  unfolding rule_passes detection_of is_candidate
  passes_lem r ms b (e, m, f) = rw (e, f) refl

  requires_lem : (r : Rule F) → IsHeld r → requires r.id ≡ r.requires
  unfolding rule_requires
  requires_lem r (e, m, f) = rw e refl

  Eligible-iff :
      (r : Rule F) (ms : List Bytes) (b : Bool)
      → IsHeld r
      → let d = detection r ms b in
        Eligible passes requires r.id ↔ (
          (d.condition_matched ≡ true)
          × (d.minimum_evidence_met ≡ true)
          × (fl.lt d.evidence_score r.minimum_score ≡ false)
          × ((id : Bytes) → In id r.requires → Eligible passes requires id))
  Eligible-iff r ms b h =
      let p = passes_lem r ms b h in
      let q = requires_lem r h in
      (
        λ e.
            let t = sym p ∙ passes_of passes requires e in
            (
              ground arith,
              ground arith,
              ground arith,
              λ id i. below_of passes requires e id (rw q i),
            ),
        λ (c, n, s, f). eligible_by (p ∙ ground arith) (λ id i. f id (subst (λ x. In id x) q i)),
      )

  abbrev IsReport : List (Rule F) → List (Detection F) → Type 0
  IsReport = Pairs (Reports passes requires detection)

  -- what a record of `Reports` fixes of the detection
  rule_id-detection : (r : Rule F) (ms : List Bytes) (b : Bool) → (detection r ms b).rule_id ≡ r.id
  unfolding detection_of
  rule_id-detection r ms b = refl

  detected-detection : (r : Rule F) (ms : List Bytes) (b : Bool) → (detection r ms b).detected ≡ b
  unfolding detection_of
  detected-detection r ms b = refl

  Decides→Eligible :
      (b : Bool) (id : Bytes)
      → Decides passes requires b id
      → (b ≡ true) ↔ Eligible passes requires id
  Decides→Eligible true id h = (λ e. h, λ e. refl)
  Decides→Eligible false id h = (λ e. cc, λ e. absurd (h e))

  Detected-iff :
      (rs : List (Rule F)) (ds : List (Detection F)) (id : Bytes)
      → IsReport rs ds
      → In id (rule_ids rs)
      → Detected ds id ↔ Eligible passes requires id
  Detected-iff rs ds id p i = (λ (d, j, same, on). forward d j same on, backward)
    where
      forward :
          (d : Detection F)
          → In d ds
          → d.rule_id ≡ id
          → d.detected ≡ true
          → Eligible passes requires id
      forward d j same on =
          let (r, k, q) = Pairs-right (Reports passes requires detection) rs ds d p j in
          let b : q.detected ≡ true =
            sym (detected-detection r q.missing q.detected)
            ∙ ap (λ (x : Detection F). x.detected) (sym q.reported)
            ∙ on in
          let name : r.id ≡ id =
            sym (rule_id-detection r q.missing q.detected)
            ∙ ap (λ (x : Detection F). x.rule_id) (sym q.reported)
            ∙ same in
          subst (Eligible passes requires) name ((Decides→Eligible q.detected r.id q.decided).0 b)

      backward : Eligible passes requires id → Detected ds id
      backward e =
          let (r, k, name) = In-map_inv (λ (x : Rule F). x.id) id rs i in
          let (d, j, q) = Pairs-left (Reports passes requires detection) rs ds r p k in
          (
            d,
            j,
            ap (λ (x : Detection F). x.rule_id) q.reported
                ∙ rule_id-detection r q.missing q.detected
                ∙ name,
            ap (λ (x : Detection F). x.detected) q.reported
                ∙ detected-detection r q.missing q.detected
                ∙ (Decides→Eligible q.detected r.id q.decided).1
                    (subst (Eligible passes requires) (sym name) e),
          )

  MissingFrom-Missing :
      (rs : List (Rule F)) (ds : List (Detection F)) {ids ms : List Bytes}
      → IsReport rs ds
      → ((id : Bytes) → In id ids → In id (rule_ids rs))
      → Missing passes requires ids ms
      → MissingFrom ds ids ms
  MissingFrom-Missing rs ds p known Correct.none_left = MissingFrom.none_left
  MissingFrom-Missing rs ds p known (Correct.met {d = id} e m) =
      MissingFrom.met ((Detected-iff rs ds id p (known id (inl refl))).1 e)
        (MissingFrom-Missing rs ds p (λ x i. known x (inr i)) m)
  MissingFrom-Missing rs ds p known (Correct.missed {d = id} e m) =
      MissingFrom.missed (λ h. e ((Detected-iff rs ds id p (known id (inl refl))).0 h))
        (MissingFrom-Missing rs ds p (λ x i. known x (inr i)) m)

  score-detection :
      (r : Rule F) (ms : List Bytes) (b : Bool)
      → let d = detection r ms b in
        (d.missing_dependencies ≡ ms)
        × (ms ≡ [] → d.score ≡ d.evidence_score)
        × (ms ≢ [] → d.score ≡ fl.of_ℕ 0)
        × (d.level ≡ level_for_score d.score)
  unfolding detection_of
  score-detection r [] b = (refl, λ e. refl, λ e. absurd (e refl), refl)
  score-detection r (m ∷ ms) b = (refl, λ e. cc, λ e. refl, refl)

  pub explained :
      (rs : List (Rule F)) (ds : List (Detection F)) (r : Rule F) (d : Detection F)
      → IsReport rs ds
      → IsHeld r
      → ((id : Bytes) → In id r.requires → In id (rule_ids rs))
      → Reports passes requires detection r d
      → IsExplained ds r d
  explained rs ds r d p h known q = subst (IsExplained ds r) (sym q.reported) (record {
    identified = rule_id-detection r q.missing q.detected;
    detected_iff = (λ e. of_detected (rw detected-detection at e), to_detected);
    missing_exact =
        subst (MissingFrom ds r.requires) (sym shape.0)
          (MissingFrom-Missing rs ds p known q.is_missing);
    score_kept = λ e. shape.1 (sym shape.0 ∙ e);
    score_dropped = λ e. shape.2 (λ f. e (shape.0 ∙ f));
    levelled = shape.3;
  })
    where
      x : Detection F
      x = detection r q.missing q.detected

      shape :
          (x.missing_dependencies ≡ q.missing)
          × (q.missing ≡ [] → x.score ≡ x.evidence_score)
          × (q.missing ≢ [] → x.score ≡ fl.of_ℕ 0)
          × (x.level ≡ level_for_score x.score)
      shape = score-detection r q.missing q.detected

      iff : Eligible passes requires r.id ↔ (
          (x.condition_matched ≡ true)
          × (x.minimum_evidence_met ≡ true)
          × (fl.lt x.evidence_score r.minimum_score ≡ false)
          × ((id : Bytes) → In id r.requires → Eligible passes requires id))
      iff = Eligible-iff r q.missing q.detected h

      of_detected :
          q.detected ≡ true
          → (x.condition_matched ≡ true)
            × (x.minimum_evidence_met ≡ true)
            × (fl.lt x.evidence_score r.minimum_score ≡ false)
            × ((id : Bytes) → In id r.requires → Detected ds id)
      of_detected e =
          let (a, b, c, f) = iff.0 ((Decides→Eligible q.detected r.id q.decided).0 e) in
          (a, b, c, λ id i. (Detected-iff rs ds id p (known id i)).1 (f id i))

      to_detected :
          (x.condition_matched ≡ true)
            × (x.minimum_evidence_met ≡ true)
            × (fl.lt x.evidence_score r.minimum_score ≡ false)
            × ((id : Bytes) → In id r.requires → Detected ds id)
          → x.detected ≡ true
      to_detected (a, b, c, f) =
          detected-detection r q.missing q.detected
          ∙ (Decides→Eligible q.detected r.id q.decided).1
              (iff.1 (a, b, c, λ id i. (Detected-iff rs ds id p (known id i)).0 (f id i)))
