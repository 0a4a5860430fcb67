-- ===== src/Scoring/Detections/Tables.antt =====
-- The tables that scoreMatches, internal/scoring/scoring.go, fills in its first loops.
use hemera.Base.{
  Bool, true, false, ◌≡◌, ◌≢◌, refl, sym, ◌∙◌, subst, Bytes, bytes_eq_iff, some, none, ok, List, [],
  ◌∷◌, map, if◌then◌else◌, Table, lookup, put, lookup-put, In, Unique, inl, inr, arith,
}
use hemera.Float.{Float64}
use hemera.Rules.Schema.{Rule}
use hemera.Rules.Match.{MatchResult, is_candidate}
use hemera.Scoring.Detections.{
  RuleEvidence, RuleScore, index_matches, index_rules, scored_of, score_rules, candidate_of,
}

module _ {F : Type 0} where
  abbrev pub rule_ids : List (Rule F) → List Bytes
  rule_ids = map (λ r. r.id)

  abbrev pub match_ids : List (MatchResult F) → List Bytes
  match_ids = map (λ m. m.rule_id)

-- A write under another key does not show.
pub lookup-put_ne :
    {V : Type 0} (k j : Bytes) (v : V) (t : Table V) → k ≢ j → lookup j (put k v t) ≡ lookup j t
lookup-put_ne k j v t h = lookup-put k j v t ∙ ground (arith, bytes_eq_iff k j)

pub lookup-put_self : {V : Type 0} (k : Bytes) (v : V) (t : Table V) → lookup k (put k v t) ≡ some v
lookup-put_self k v t = lookup-put k k v t ∙ ground (arith, bytes_eq_iff k k)

module _ {F : Type 0} where
  index_rules-absent :
      (id : Bytes) (rs : List (Rule F)) (t : Table (Rule F))
      → ¬ (In id (rule_ids rs))
      → lookup id (index_rules rs t) ≡ lookup id t
  unfolding index_rules
  index_rules-absent id [] t h = refl
  index_rules-absent id (r ∷ rs) t h =
      index_rules-absent id rs (put r.id r t) (λ i. h (inr i))
      ∙ lookup-put_ne r.id id r t (λ e. h (inl e))

  pub lookup-index_rules :
      (r : Rule F) (rs : List (Rule F)) (t : Table (Rule F))
      → Unique (rule_ids rs)
      → In r rs
      → lookup r.id (index_rules rs t) ≡ some r
  unfolding index_rules
  lookup-index_rules r [] t u i = absurd i
  lookup-index_rules r (s ∷ rs) t (new, u) (inl e) =
      subst (λ (x : Rule F). lookup x.id (index_rules rs (put s.id s t)) ≡ some x) e
        (index_rules-absent s.id rs (put s.id s t) new ∙ lookup-put_self s.id s t)
  lookup-index_rules r (s ∷ rs) t (new, u) (inr i) = lookup-index_rules r rs (put s.id s t) u i

  -- Matches with unique identifiers that are not in the table yet are all indexed.
  pub index_matches_lem :
      (t : Table (MatchResult F)) (ms : List (MatchResult F))
      → Unique (match_ids ms)
      → ((id : Bytes) → In id (match_ids ms) → lookup id t ≡ none)
      → (t' : Table (MatchResult F)) × (index_matches t ms ≡ ok t')
        × ((id : Bytes) → ¬ (In id (match_ids ms)) → lookup id t' ≡ lookup id t)
        × ((m : MatchResult F) → In m ms → lookup m.rule_id t' ≡ some m)
  unfolding index_matches
  index_matches_lem t [] u h = (t, refl, λ id i. refl, λ m i. absurd i)
  index_matches_lem t (m ∷ ms) (new, u) h =
      let (t', e, others, own) = index_matches_lem (put m.rule_id m t) ms u (λ id i.
        lookup-put_ne m.rule_id id m t (λ same. new (subst (λ x. In x (match_ids ms)) (sym same) i))
        ∙ h id (inr i)) in
      (
        t',
        rw (h m.rule_id (inl refl), index_matches) e,
        λ id i. others id (λ j. i (inr j)) ∙ lookup-put_ne m.rule_id id m t (λ same. i (inl same)),
        λ x. elim [
          | inl same ↦
              subst (λ (y : MatchResult F). lookup y.rule_id t' ≡ some y) same
                (others m.rule_id new ∙ lookup-put_self m.rule_id m t)
          | inr i ↦ own x i
        ],
      )

module _ {F : Type 0} ⦃fl : Float64 F⦄ where
  abbrev with_score :
      Table (MatchResult F)
      → Table (RuleEvidence F)
      → Rule F
      → Bool
      → Table (RuleScore F)
      → Table (RuleScore F)
  with_score matches bases r b t = if b then put r.id (scored_of matches bases r) t else t

  with_score-ne :
      (matches : Table (MatchResult F)) (bases : Table (RuleEvidence F)) (r : Rule F) (b : Bool)
      (t : Table (RuleScore F)) (id : Bytes)
      → r.id ≢ id
      → lookup id (with_score matches bases r b t) ≡ lookup id t
  with_score-ne matches bases r true t id h = lookup-put_ne r.id id _ t h
  with_score-ne matches bases r false t id h = refl

  with_score_self :
      (matches : Table (MatchResult F)) (bases : Table (RuleEvidence F)) (r : Rule F) (b : Bool)
      (t : Table (RuleScore F))
      → lookup r.id t ≡ none
      → lookup r.id (with_score matches bases r b t)
        ≡ (if b then some (scored_of matches bases r) else none)
  with_score_self matches bases r true t h = lookup-put_self r.id _ t
  with_score_self matches bases r false t h = h

  -- Every rule has a match: the loop over the rules returns, and scores just the candidates.
  pub score_rules_lem :
      (matches : Table (MatchResult F)) (bases : Table (RuleEvidence F)) (rs : List (Rule F))
      (t : Table (RuleScore F))
      → Unique (rule_ids rs)
      → ((r : Rule F) → In r rs → (m : MatchResult F) × (lookup r.id matches ≡ some m))
      → ((id : Bytes) → In id (rule_ids rs) → lookup id t ≡ none)
      → (t' : Table (RuleScore F)) × (score_rules matches bases rs t ≡ ok t')
        × ((id : Bytes) → ¬ (In id (rule_ids rs)) → lookup id t' ≡ lookup id t)
        × ((r : Rule F)
            → In r rs
            → lookup r.id t' ≡ (
                if candidate_of (lookup r.id matches)
                then some (scored_of matches bases r)
                else none))
  unfolding score_rules
  score_rules_lem matches bases [] t u h z = (t, refl, λ id i. refl, λ r i. absurd i)
  score_rules_lem matches bases (r ∷ rs) t (new, u) h z =
      let (m, e) = h r (inl refl) in
      let t₁ = with_score matches bases r (is_candidate m) t in
      let (t', f, others, own) =
        score_rules_lem matches bases rs t₁ u (λ x i. h x (inr i))
          (λ id i.
            with_score-ne matches bases r (is_candidate m) t id
              (λ same. new (subst (λ x. In x (rule_ids rs)) (sym same) i))
            ∙ z id (inr i)) in
      (
        t',
        rw (e, score_rules) f,
        λ id i.
            others id (λ j. i (inr j))
            ∙ with_score-ne matches bases r (is_candidate m) t id (λ same. i (inl same)),
        λ x. elim [
          | inl same ↦
              subst
                (λ (y : Rule F). lookup y.id t' ≡ (
                  if candidate_of (lookup y.id matches)
                  then some (scored_of matches bases y)
                  else none))
                same
                (others r.id new
                  ∙ with_score_self matches bases r (is_candidate m) t (z r.id (inl refl))
                  ∙ rw e refl)
          | inr i ↦ own x i
        ],
      )
