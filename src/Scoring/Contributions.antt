-- ===== src/Scoring/Contributions.antt =====
-- scorePositive and scorePenalties of internal/scoring/scoring.go.
use hemera.Base.{
  ℕ, Bool, Option, some, none, List, [], ◌∷◌, ◌++◌, if◌then◌else◌, Table, lookup, put, length,
  get_elem?, set, or_zero,
}
use hemera.Float.{Float64}
use hemera.Rules.Match.{EvidenceMatch}
use hemera.Scoring.{ScoredEvidence, EvidenceGroup}

-- The local variables of the loop. The slice `scored` grows by one element a round, where the source
-- allocates it whole and fills it.
pub record PositiveState (F : Type 0) : Type 0 where
  pub scored : List (ScoredEvidence F)
  pub groups : List (EvidenceGroup F)
  pub indexes : Table ℕ
  pub selected_indexes : List ℕ
  pub maximums : List F

module _ {F : Type 0} ⦃fl : Float64 F⦄ where
  abbrev pub raw_contribution : EvidenceMatch F → F
  raw_contribution m = fl.mul m.weight m.signal.confidence

  abbrev pub no_group : EvidenceGroup F
  no_group = record {
    id = [];
    evidence_ids = [];
    selected_evidence_id = [];
    raw_contribution = fl.of_ℕ 0;
    contribution = fl.of_ℕ 0;
  }

  abbrev pub positive_start : PositiveState F
  positive_start = record {
    scored = [];
    groups = [];
    indexes = [];
    selected_indexes = [];
    maximums = [];
  }

  abbrev pub scored_raw : EvidenceMatch F → ScoredEvidence F
  scored_raw m = record {
    match = m;
    raw_contribution = raw_contribution m;
    contribution = fl.of_ℕ 0;
  }

  -- the first evidence of a group
  abbrev open_group : PositiveState F → EvidenceMatch F → PositiveState F
  open_group st m = record {
    scored = st.scored ++ (scored_raw m ∷ []);
    groups =
        st.groups
        ++ (record {
          id = m.group;
          evidence_ids = m.evidence_id ∷ [];
          selected_evidence_id = m.evidence_id;
          raw_contribution = raw_contribution m;
          contribution = fl.of_ℕ 0;
        }
            ∷ []);
    indexes = put m.group (length st.groups) st.indexes;
    selected_indexes = st.selected_indexes ++ (length st.scored ∷ []);
    maximums = st.maximums ++ (raw_contribution m ∷ []);
  }

  -- further evidence of the group at `index`, which is selected if it is above the maximum
  abbrev extend_group : PositiveState F → EvidenceMatch F → ℕ → PositiveState F
  extend_group st m index =
      let raw = raw_contribution m in
      let group = or_zero no_group (get_elem? st.groups index) in
      let above = fl.lt (or_zero (fl.of_ℕ 0) (get_elem? st.maximums index)) raw in
      record {
        scored = st.scored ++ (scored_raw m ∷ []);
        groups = set st.groups index (record group {
          evidence_ids = group.evidence_ids ++ (m.evidence_id ∷ []);
          raw_contribution = fl.add group.raw_contribution raw;
          selected_evidence_id = if above then m.evidence_id else group.selected_evidence_id;
        });
        indexes = st.indexes;
        selected_indexes =
            if above then set st.selected_indexes index (length st.scored) else st.selected_indexes;
        maximums = if above then set st.maximums index raw else st.maximums;
      }

  abbrev positive_at : PositiveState F → EvidenceMatch F → Option ℕ → PositiveState F
  positive_at st m none = open_group st m
  positive_at st m (some index) = extend_group st m index

  -- one round of the first loop of scorePositive
  unfoldable pub positive_step : PositiveState F → EvidenceMatch F → PositiveState F
  positive_step st m = positive_at st m (lookup m.group st.indexes)

  unfoldable pub positive_loop : PositiveState F → List (EvidenceMatch F) → PositiveState F
  positive_loop st [] = st
  positive_loop st (m ∷ ms) = positive_loop (positive_step st m) ms

  abbrev pub contribute : List (ScoredEvidence F) → ℕ → F → List (ScoredEvidence F)
  contribute [] i v = []
  contribute (s ∷ ss) ℕ.zero v = record s { contribution = v } ∷ ss
  contribute (s ∷ ss) (ℕ.suc i) v = s ∷ contribute ss i v

  -- The second loop, over the groups with their selected index and maximum; the three slices have
  -- one length.
  unfoldable pub apply_groups :
      List (EvidenceGroup F)
      → List ℕ
      → List F
      → List (ScoredEvidence F)
      → F
      → F × List (ScoredEvidence F) × List (EvidenceGroup F)
  apply_groups (g ∷ gs) (i ∷ is) (m ∷ ms) scored total =
      let (total', scored', gs') = apply_groups gs is ms (contribute scored i m) (fl.add total m) in
      (total', scored', record g { contribution = m } ∷ gs')
  apply_groups gs is ms scored total = (total, scored, gs)

  -- scorePositive
  unfoldable pub score_positive :
      List (EvidenceMatch F) → Bool → F × List (ScoredEvidence F) × List (EvidenceGroup F)
  score_positive evidence active =
      let st = positive_loop positive_start evidence in
      if active
      then apply_groups st.groups st.selected_indexes st.maximums st.scored (fl.of_ℕ 0)
      else (fl.of_ℕ 0, st.scored, st.groups)

  abbrev pub penalty : EvidenceMatch F → F
  penalty m = fl.mul (fl.neg m.weight) m.signal.confidence

  abbrev pub penalty_step :
      Bool → F × List (ScoredEvidence F) → EvidenceMatch F → F × List (ScoredEvidence F)
  penalty_step active (total, scored) m =
      let contribution = if active then penalty m else fl.of_ℕ 0 in
      (
        if active then fl.add total contribution else total,
        scored
            ++ (record { match = m; raw_contribution = penalty m; contribution = contribution }
                ∷ []),
      )

  unfoldable pub penalty_loop :
      Bool → F × List (ScoredEvidence F) → List (EvidenceMatch F) → F × List (ScoredEvidence F)
  penalty_loop active acc [] = acc
  penalty_loop active acc (m ∷ ms) = penalty_loop active (penalty_step active acc m) ms

  -- scorePenalties
  unfoldable pub score_penalties : List (EvidenceMatch F) → Bool → F × List (ScoredEvidence F)
  unfolding penalty_loop
  score_penalties evidence active = penalty_loop active (fl.of_ℕ 0, []) evidence
