-- ===== src/Scoring/Range.antt =====
-- clamp, LevelForScore and scoreMatches of internal/scoring/scoring.go: the range of the scores and
-- the order of the levels.
use hemera.Base.{
  ℕ, ◌≤◌, Bool, true, false, ◌≡◌, refl, sym, subst, ◌∙◌, Bytes, Option, some, none, ok, List, [],
  ◌∷◌, Table, lookup, put, lookup-put, bytes_eq, Bool-cases, Option-cases, Result-cases, inl, inr,
  All, if◌then◌else◌, arith, ok_injective, length, ◌==◌,
}
use mathlib.Core.Option.{some-injective}
use hemera.Float.{Float64, IsOrdered, ◌≼◌}
use hemera.Rules.Schema.{Rule}
use hemera.Rules.Match.{MatchResult, is_candidate}
use hemera.Scoring.{
  Detection, Level, not_detected, low, medium, high, very_high, clamp, level_for_score,
}
use hemera.Scoring.Detections.{
  RuleEvidence, RuleScore, scored_of, score_rules, score_of, detection_of, detect_rules,
  missing_from, score_matches, index_matches, base_scores,
}

-- the position of a level among the five
abbrev pub rank : Level → ℕ
rank not_detected = 0
rank low = 1
rank medium = 2
rank high = 3
rank very_high = 4

module _ {F : Type 0} ⦃fl : Float64 F⦄ (laws : IsOrdered F) where
  open laws use {
    le_refl, le_trans, le_total, le_number, lt-eq-not-le, lt_number, of_ℕ_number, of_ℕ_le,
  }

  abbrev pub InRange : F → Type 0
  InRange x = (fl.of_ℕ 0 ≼ x) × (x ≼ fl.of_ℕ 100)

  zero-InRange : InRange (fl.of_ℕ 0)
  zero-InRange =
      (le_refl _ (of_ℕ_number 0 (omega arith)), of_ℕ_le 0 100 (omega arith) (omega arith))

  hundred-InRange : InRange (fl.of_ℕ 100)
  hundred-InRange =
      (of_ℕ_le 0 100 (omega arith) (omega arith), le_refl _ (of_ℕ_number 100 (omega arith)))

  clamp-InRange : (x : F) → InRange (clamp x)
  unfolding clamp
  clamp-InRange x =
      let z = of_ℕ_number 0 (omega arith) in
      let h = of_ℕ_number 100 (omega arith) in
      ground (
        arith,
        zero-InRange,
        hundred-InRange,
        lt-eq-not-le x (fl.of_ℕ 0),
        lt-eq-not-le (fl.of_ℕ 100) x,
        le_total x (fl.of_ℕ 0),
        le_total (fl.of_ℕ 100) x,
      )

  clamp_mono : (x y : F) → x ≼ y → clamp x ≼ clamp y
  unfolding clamp
  clamp_mono x y h =
      let z = of_ℕ_number 0 (omega arith) in
      let c = of_ℕ_number 100 (omega arith) in
      let n = le_number x y h in
      let upper = clamp-InRange x in
      ground (
        arith,
        (clamp-InRange y).0,
        (clamp-InRange x).1,
        lt-eq-not-le x (fl.of_ℕ 0) n.0 z,
        lt-eq-not-le y (fl.of_ℕ 0) n.1 z,
        lt-eq-not-le (fl.of_ℕ 100) x c n.0,
        lt-eq-not-le (fl.of_ℕ 100) y c n.1,
        le_trans (fl.of_ℕ 0) x y,
        le_trans x y (fl.of_ℕ 100),
        le_trans (fl.of_ℕ 100) x y,
        le_total (fl.of_ℕ 100) x c n.0,
        le_total (fl.of_ℕ 100) y c n.1,
        le_total x (fl.of_ℕ 0) n.0 z,
        le_total y (fl.of_ℕ 0) n.1 z,
      )

  -- For an ordered float arithmetic, a score that is not lower has a level that is not lower.
  pub level_for_score_mono : (x y : F) → x ≼ y → rank (level_for_score x) ≤ rank (level_for_score y)
  unfolding level_for_score
  level_for_score_mono x y h =
      let c = clamp_mono x y h in
      ground (
        arith,
        le_trans (fl.of_ℕ 90) (clamp x) (clamp y),
        le_trans (fl.of_ℕ 75) (clamp x) (clamp y),
        le_trans (fl.of_ℕ 50) (clamp x) (clamp y),
        le_trans (fl.of_ℕ 25) (clamp x) (clamp y),
      )

  abbrev AllInRange : Table (RuleScore F) → Type 0
  AllInRange t = (id : Bytes) (s : RuleScore F) → lookup id t ≡ some s → InRange s.score

  put-AllInRange :
      (id : Bytes) (s : RuleScore F) (t : Table (RuleScore F))
      → InRange s.score
      → AllInRange t
      → AllInRange (put id s t)
  put-AllInRange id s t h v j u e = elim (Bool-cases (bytes_eq id j)) [
    | inl same ↦
        let at_key : lookup j (put id s t) ≡ some s = lookup-put id j s t ∙ rw same refl in
        subst (λ (x : RuleScore F). InRange x.score) (some-injective _ _ (sym at_key ∙ e)) h
    | inr other ↦
        let away : lookup j (put id s t) ≡ lookup j t = lookup-put id j s t ∙ rw other refl in
        v j u (sym away ∙ e)
  ]

  scored_of-InRange :
      (matches : Table (MatchResult F)) (bases : Table (RuleEvidence F)) (r : Rule F)
      → InRange (scored_of matches bases r).score
  unfolding scored_of
  scored_of-InRange matches bases r = clamp-InRange _

  score_rules-AllInRange :
      (matches : Table (MatchResult F)) (bases : Table (RuleEvidence F)) (rs : List (Rule F))
      (t t' : Table (RuleScore F))
      → AllInRange t
      → score_rules matches bases rs t ≡ ok t'
      → AllInRange t'
  unfolding score_rules
  score_rules-AllInRange matches bases [] t t' v e = subst AllInRange (ok_injective e) v
  score_rules-AllInRange matches bases (r ∷ rs) t t' v e =
      elim (Option-cases (lookup r.id matches)) [
        | inl missing ↦ cc (rw (missing, score_rules) at e)
        | inr (m, found) ↦
            score_rules-AllInRange matches bases rs
              (if is_candidate m then put r.id (scored_of matches bases r) t else t) t'
              (entry (is_candidate m)) (rw (found, score_rules) at e)
      ]
    where
      entry : (b : Bool) → AllInRange (if b then put r.id (scored_of matches bases r) t else t)
      entry true = put-AllInRange r.id _ t (scored_of-InRange matches bases r) v
      entry false = v

  abbrev IsScored : Detection F → Type 0
  IsScored d = InRange d.score × InRange d.evidence_score × (d.level ≡ level_for_score d.score)

  score_of-InRange :
      (o : Option (RuleScore F))
      → ((s : RuleScore F) → o ≡ some s → InRange s.score)
      → InRange (score_of o)
  score_of-InRange none h = zero-InRange
  score_of-InRange (some s) h = h s refl

  detection_of-IsScored :
      (matches : Table (MatchResult F)) (bases : Table (RuleEvidence F)) (t : Table (RuleScore F))
      (r : Rule F) (ms : List Bytes) (b : Bool)
      → AllInRange t
      → IsScored (detection_of matches bases t r ms b)
  unfolding detection_of
  detection_of-IsScored matches bases t r [] b v =
      let s = score_of-InRange (lookup r.id t) (v r.id) in (s, s, refl)
  detection_of-IsScored matches bases t r (m ∷ ms) b v =
      (zero-InRange, score_of-InRange (lookup r.id t) (v r.id), refl)

  detect_rules-All :
      (P : Detection F → Type 0) (walk : Bytes → Table Bool → Option (Bool × Table Bool))
      (detection : Rule F → List Bytes → Bool → Detection F) (rs : List (Rule F))
      (memo : Table Bool) {ds : List (Detection F)}
      → ((r : Rule F) (ms : List Bytes) (b : Bool) → P (detection r ms b))
      → detect_rules walk detection rs memo ≡ ok ds
      → All P ds
  unfolding detect_rules
  detect_rules-All P walk detection [] memo h e = subst (All P) (ok_injective e) tt
  detect_rules-All P walk detection (r ∷ rs) memo h e =
      elim (Option-cases (missing_from walk r.requires memo)) [
        | inl out ↦ cc (rw (out, detect_rules) at e)
        | inr ((ms, m₁), found) ↦
            let e₁ = rw (found, detect_rules) at e in
            elim (Option-cases (walk r.id m₁)) [
              | inl out ↦ cc (rw (out, detect_rules) at e₁)
              | inr ((b, m₂), walked) ↦
                  let e₂ = rw (walked, detect_rules) at e₁ in
                  elim (Result-cases (detect_rules walk detection rs m₂)) [
                    | inl (rest, f) ↦
                        subst (All P) (ok_injective (rw f at e₂))
                          (h r ms b, detect_rules-All P walk detection rs m₂ h f)
                    | inr (x, f) ↦ cc (rw f at e₂)
                  ]
            ]
      ]

  -- For an ordered float arithmetic: in what scoreMatches returns, every score, before and after
  -- the dependencies are taken into account, is a number from 0 to 100, and the level is that of
  -- the final score.
  pub score_matches-IsScored :
      (rules : List (Rule F)) (matches : List (MatchResult F)) {ds : List (Detection F)}
      → score_matches rules matches ≡ ok ds
      → All
          (λ d. InRange d.score × InRange d.evidence_score × (d.level ≡ level_for_score d.score))
          ds
  unfolding score_matches
  score_matches-IsScored rules matches {ds} e = elim (Bool-cases (length matches == length rules)) [
    | inr differ ↦ cc (rw differ at e)
    | inl counts ↦ elim (Result-cases (index_matches [] matches)) [
      | inr (x, f) ↦ cc (rw (counts, f) at e)
      | inl (by_id, f) ↦ elim (Result-cases (score_rules by_id (base_scores matches []) rules [])) [
        | inr (x, g) ↦ cc (rw (counts, f, g) at e)
        | inl (scores, g) ↦
            detect_rules-All IsScored _ _ rules []
              (λ r ms b.
                detection_of-IsScored by_id (base_scores matches []) scores r ms b (
                  score_rules-AllInRange by_id _ rules [] scores (λ id s h. unfold lookup in cc) g))
              (rw (counts, f, g) at e)
      ]
    ]
  ]
