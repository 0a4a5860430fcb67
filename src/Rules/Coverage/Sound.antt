-- ===== src/Rules/Coverage/Sound.antt =====
-- The coverage of a condition, internal/rules/condition_coverage.go, against the signals that incomplete
-- sources may still hold.
use hemera.Base.{
  ◌++◌, ◌≡◌, refl, sym, ◌∙◌, ap, subst, ◌⊎◌, inl, inr, Bool, true, false, ◌&&◌, ◌||◌, not, Bytes,
  bytes_eq→eq, &&-eq-true, Option, some, none, ok, ok_injective, >>=-eq-ok, if◌then◌else◌, List, [],
  ◌∷◌, map, In, Bool-cases, arith,
}
use mathlib.Core.Bool.{and_assoc, or_assoc}
use hemera.Float.{Float64}
use hemera.Text.{Text}
use hemera.Model.{SignalType, Signal}
use hemera.Sorted.{deduplicate_sorted}
use hemera.Analysis.{Capability}
use hemera.Rules.Schema.{
  TextPattern, Evidence, Condition, condition, Group, absent, present, Conditions, nil, cons,
}
use hemera.Rules.Pattern.{
  PreparedPattern, prepare_text_pattern, needs_case_fold, pattern_matches, text_matches,
}
use hemera.Rules.Cache.{PreparedEvidence, uncached, raw_field, prepare_optional, prepare_evidence}
use hemera.Rules.Cache.Transparent.{evidence_holds, field_holds, uncached-IsFaithful}
use hemera.Rules.Match.{EvidenceMatch, strongest_match, pure}
use hemera.Rules.Match.Plain.{and_then-ok, strongest, plain_found, plain_match}
use hemera.Rules.Match.Refines.{strongest_match-Answers}
use hemera.Rules.Match.Meaning.{
  some_holds, signal_satisfied, satisfied, group_satisfied, all_satisfied, some_satisfied, is_found,
  strongest_found,
}
use hemera.Rules.Capabilities.{
  CapabilityRegistry, supports, source_matches, capable_sources, new_capability_registry,
}
use hemera.Rules.Capabilities.Consistent.{Allows, new_capability_registry-exact}
use hemera.Rules.Coverage.{
  CoverageState, not_matched, matched, unknown, is_matched, is_unknown, CoverageResult, Children,
  no_children, unsatisfiable, cover_conjunct, cover_disjunct, conjunction, disjunction,
  incomplete_of, cover_missing, cover_evidence, cover_condition, cover_group, cover_all, cover_any,
  evaluate_condition_coverage,
}
use hemera.Rules.Coverage.Logic.{Caches, Gives, Gives-pure, Gives-bind, Gives-Answers, Meets-ok}

module _ ⦃tx : Text⦄ where
  prepare_cases_pattern :
      (p : TextPattern) (q : PreparedPattern) → prepare_text_pattern p ≡ ok q → q.pattern ≡ some p
  unfolding prepare_text_pattern
  prepare_cases_pattern p q h = ground arith

  source_matches_lem :
      (t : TextPattern) (q : PreparedPattern) (v : Bytes)
      → prepare_text_pattern t ≡ ok q
      → source_matches t v ≡ pattern_matches q (if needs_case_fold q then tx.to_lower v else v)
  unfolding text_matches
  source_matches_lem t q v h = ground (arith, h)

module _ {F : Type 0} ⦃tx : Text⦄ where
  source-Allows :
      (o : Option TextPattern) (q : PreparedPattern) (s : Signal F)
      → prepare_optional o ≡ ok q
      → field_holds q.pattern q 0 s ≡ true
      → Allows o s.source
  unfolding text_matches raw_field
  source-Allows none q s h e = tt
  source-Allows (some t) q s h e =
      let e' : field_holds (some t) q 0 s ≡ true =
        subst (λ o. field_holds o q 0 s ≡ true) (prepare_cases_pattern t q h) e in
      source_matches_lem t q s.source h ∙ e'

  holds_source :
      (e : Evidence F) (p : PreparedEvidence F) (s : Signal F)
      → prepare_evidence e ≡ ok p
      → evidence_holds p s ≡ true
      → (e.type ≡ s.type) × Allows e.source s.source
  unfolding prepare_evidence
  holds_source e p s h holds =
      let (source, f, h1) = >>=-eq-ok (prepare_optional e.source) _ h in
      let (key, g, h2) = >>=-eq-ok (prepare_optional e.key) _ h1 in
      let (value, i, h3) = >>=-eq-ok (prepare_optional e.value) _ h2 in
      let (url, j, h4) = >>=-eq-ok (prepare_optional e.url) _ h3 in
      let holds' = subst (λ x. evidence_holds x s ≡ true) (sym (ok_injective h4)) holds in
      let both = (&&-eq-true _ _).0 holds' in
      (
        bytes_eq→eq e.type s.type both.0,
        source-Allows e.source source s f ((&&-eq-true _ _).0 both.1).0,
      )

module _ {F : Type 0} ⦃fl : Float64 F⦄ ⦃tx : Text⦄ where
  some_holds-In :
      (p : PreparedEvidence F) (signals : List (Signal F))
      → some_holds p signals ≡ true
      → (s : Signal F) × In s signals × (evidence_holds p s ≡ true)
  some_holds-In p [] h = cc
  some_holds-In p (s ∷ rest) h = elim (Bool-cases (evidence_holds p s)) [
    | inl e ↦ (s, inl refl, e)
    | inr e ↦ let (t, i, f) = some_holds-In p rest (rw e at h) in (t, inr i, f)
  ]

  In-some_holds :
      (p : PreparedEvidence F) (s : Signal F) (signals : List (Signal F))
      → In s signals
      → evidence_holds p s ≡ true
      → some_holds p signals ≡ true
  In-some_holds p s [] i h = absurd i
  In-some_holds p s (t ∷ rest) (inl e) h =
      let h' : evidence_holds p t ≡ true = ap (evidence_holds p) e ∙ h in rw h' refl
  In-some_holds p s (t ∷ rest) (inr i) h = ground (arith, In-some_holds p s rest i h)

In-incomplete_of :
    (complete : Bytes → SignalType → Bool) (t : SignalType) (s : Bytes) (ss : List Bytes)
    → In s ss
    → complete s t ≡ false
    → In s (incomplete_of complete t ss)
unfolding incomplete_of
In-incomplete_of complete t s [] i h = absurd i
In-incomplete_of complete t s (x ∷ ss) (inl e) h =
    let h' : complete x t ≡ false = ap (λ y. complete y t) e ∙ h in rw (h', incomplete_of) (inl e)
In-incomplete_of complete t s (x ∷ ss) (inr i) h = elim (Bool-cases (complete x t)) [
  | inl e ↦ rw (e, incomplete_of) (In-incomplete_of complete t s ss i h)
  | inr e ↦ rw (e, incomplete_of) (inr (In-incomplete_of complete t s ss i h))
]

abbrev is_not_matched : CoverageState → Bool
is_not_matched not_matched = true
is_not_matched matched = false
is_not_matched unknown = false

-- What a coverage result says of a truth value that may still change.
record Judges {F : Type 0} (b : Bool) (res : CoverageResult F) : Type 0 where
  refuted : res.can_be_satisfied ≡ false → b ≡ false
  proved : is_matched res.state ≡ true → b ≡ true
  consistent : is_not_matched res.state ≡ true → res.can_be_satisfied ≡ false

-- The signals that a scan may have missed: those of a registered source whose channel for their type
-- is incomplete.
pub record Completes {F : Type 0} (r : CapabilityRegistry) (complete : Bytes → SignalType → Bool)
    (signals signals' : List (Signal F)) : Type 0 where
  pub kept : (s : Signal F) → In s signals → In s signals'
  pub missed :
      (s : Signal F)
      → In s signals'
      → In s signals ⊎ ((supports r s.source s.type ≡ true) × (complete s.source s.type ≡ false))

module _ {F : Type 0} where
  -- The rounds of the two loops, for the conjunction and the disjunction `b` of what was read before.
  conjunct_known :
      (acc : Children F) (child : CoverageResult F) (b x : Bool)
      → (acc.has_unknown ≡ false → b ≡ true)
      → Judges x child
      → child.can_be_satisfied ≡ true
      → (cover_conjunct acc child).has_unknown ≡ false
      → (b && x) ≡ true
  conjunct_known acc child b x h j can e =
      state_cases child.state (j.proved) (λ z. cc (j.consistent z, can)) e
    where
      state_cases :
          (state : CoverageState)
          → (is_matched state ≡ true → x ≡ true)
          → (is_not_matched state ≡ true → ⊥)
          → (acc.has_unknown || is_unknown state) ≡ false
          → (b && x) ≡ true
      state_cases not_matched f g e = absurd (g refl)
      state_cases matched f g e = ground (arith, f refl, h)
      state_cases unknown f g e = ground arith

  disjunct_known :
      (acc : Children F) (child : CoverageResult F) (b x : Bool)
      → (acc.has_matched ≡ true → b ≡ true)
      → (acc.satisfiable ≡ false → b ≡ false)
      → Judges x child
      → ((cover_disjunct acc child).has_matched ≡ true → (b || x) ≡ true)
        × ((cover_disjunct acc child).satisfiable ≡ false → (b || x) ≡ false)
  disjunct_known acc child b x h g j = elim (Bool-cases (child.can_be_satisfied)) [
    | inl e ↦ rw e ((λ k. by_match (Bool-cases acc.has_matched) k), (λ k. cc))
    | inr e ↦ rw e ((λ k. ground (arith, h k)), (λ k. ground (arith, g k, j.refuted e)))
  ]
    where
      by_match :
          (acc.has_matched ≡ true) ⊎ (acc.has_matched ≡ false)
          → (acc.has_matched || is_matched child.state) ≡ true
          → (b || x) ≡ true
      by_match (inl m) k = ground (arith, h m)
      by_match (inr m) k = ground (arith, j.proved (ground (arith, m)))

  conjunction-Judges :
      (acc : Children F) (b : Bool)
      → (acc.has_unknown ≡ false → b ≡ true)
      → Judges (b && true) (conjunction acc)
  conjunction-Judges acc b h = elim (Bool-cases acc.has_unknown) [
    | inl e ↦ rw e (record { refuted = λ z. cc; proved = λ z. cc; consistent = λ z. cc })
    | inr e ↦
        rw e (record { refuted = λ z. cc; proved = λ z. ground (arith, h e); consistent = λ z. cc })
  ]

  disjunction-Judges :
      (acc : Children F) (b : Bool)
      → (acc.has_matched ≡ true → b ≡ true)
      → (acc.satisfiable ≡ false → b ≡ false)
      → Judges (b || false) (disjunction acc)
  disjunction-Judges acc b h g = elim (Bool-cases acc.satisfiable) [
    | inr e ↦
        rw e
          (record { refuted = λ z. ground (arith, g e); proved = λ z. cc; consistent = λ z. refl })
    | inl e ↦ rw e (elim (Bool-cases (acc.has_unknown || not acc.has_matched)) [
      | inl f ↦ rw f (record { refuted = λ z. cc; proved = λ z. cc; consistent = λ z. cc })
      | inr f ↦ rw f (record {
        refuted = λ z. cc;
        proved = λ z. ground (arith, h (ground (arith, f)));
        consistent = λ z. cc;
      })
    ])
  ]

  unsatisfiable-Judges :
      (b : Bool) (required : List Bytes) → b ≡ false → Judges b (unsatisfiable {F = F} required)
  unsatisfiable-Judges b required h = record {
    refuted = λ z. h;
    proved = λ z. cc;
    consistent = λ z. refl;
  }

module _ {F : Type 0} ⦃fl : Float64 F⦄ ⦃tx : Text⦄ (r : CapabilityRegistry)
    (complete : Bytes → SignalType → Bool)
    (capable : (e : Evidence F) (s : Bytes)
      → supports r s e.type ≡ true
      → Allows e.source s
      → In s (capable_sources r e))
    (signals signals' : List (Signal F)) (more : Completes r complete signals signals') where
  -- a signal that turns up later comes from an incomplete source
  later_incomplete :
      (e : Evidence F) (p : PreparedEvidence F)
      → prepare_evidence e ≡ ok p
      → some_holds p signals ≡ false
      → some_holds p signals' ≡ true
      → (s : Bytes) × In s (incomplete_of complete e.type (capable_sources r e))
  later_incomplete e p h before after =
      let (s, i, holds) = some_holds-In p signals' after in
      let (same, allows) = holds_source e p s h holds in
      elim (more.missed s i) [
        | inl j ↦ cc (In-some_holds p s signals j holds, before)
        | inr new ↦ (
          s.source,
          In-incomplete_of complete e.type s.source (capable_sources r e)
              (capable e s.source (subst (λ t. supports r s.source t ≡ true) (sym same) new.0)
                allows)
              (subst (λ t. complete s.source t ≡ false) (sym same) new.1),
        )
      ]

  cover_missing-Judges :
      (e : Evidence F) (b : Bool) (sources : List Bytes)
      → (b ≡ true → (s : Bytes) × In s sources)
      → Judges b (cover_missing r complete e (capable_sources r e) sources)
  cover_missing-Judges e b [] h = record {
    refuted = λ z. none_left b h;
    proved = λ z. cc;
    consistent = λ z. refl;
  }
    where
      none_left : (b : Bool) → (b ≡ true → (s : Bytes) × In s []) → b ≡ false
      none_left false h = refl
      none_left true h = absurd ((h refl).1)
  cover_missing-Judges e b (s ∷ ss) h = record {
    refuted = λ z. cc;
    proved = λ z. cc;
    consistent = λ z. cc;
  }

  evidence-Judges :
      (e : Evidence F) (m : Option (EvidenceMatch F))
      → plain_match e signals ≡ ok m
      → Judges (signal_satisfied e signals') (cover_evidence r complete e m)
  unfolding plain_match
  evidence-Judges e m h =
      let (p, prepared, h') = and_then-ok (prepare_evidence e) _ h in
      let found = strongest_found p none signals in
      rw (prepared, signal_satisfied)
        (subst (λ o. Judges (some_holds p signals') (cover_evidence r complete e o))
          (ok_injective h') (cases p prepared (strongest p none signals) found))
    where
      cases :
          (p : PreparedEvidence F)
          → prepare_evidence e ≡ ok p
          → (best : Option (Signal F)) → is_found best ≡ some_holds p signals
          → Judges (some_holds p signals') (cover_evidence r complete e (plain_found e best))
      cases p prepared (some s) found =
          let (t, i, holds) = some_holds-In p signals (sym found) in
          record {
            refuted = λ z. cc;
            proved = λ z. In-some_holds p t signals' (more.kept t i) holds;
            consistent = λ z. cc;
          }
      cases p prepared none found =
          cover_missing-Judges e (some_holds p signals') _
            (λ after. later_incomplete e p prepared (sym found) after)

  mutual
    unfolding cover_condition satisfied

    cover_condition-Gives :
        (c : Condition F)
        → Gives signals (Judges (satisfied c signals')) (cover_condition r complete c)
    cover_condition-Gives (condition (some e) all any) =
        Gives-bind signals (λ m. plain_match e signals ≡ ok m)
          (Judges (signal_satisfied e signals')) (strongest_match e)
          (λ m. pure (cover_evidence r complete e m))
          (Gives-Answers signals (λ m. plain_match e signals ≡ ok m) (plain_match e)
            (strongest_match e) (strongest_match-Answers e) (λ m h. h))
          (λ m h.
            Gives-pure signals (Judges (signal_satisfied e signals'))
              (cover_evidence r complete e m) (evidence-Judges e m h))
    cover_condition-Gives (condition none all (present any)) =
        cover_any-Gives any no_children false (λ z. cc) (λ z. refl)
    cover_condition-Gives (condition none all absent) = cover_group-Gives all

    cover_group-Gives :
        (g : Group F)
        → Gives signals (Judges (group_satisfied g signals')) (cover_group r complete g)
    cover_group-Gives absent =
        Gives-pure signals (Judges true) (conjunction no_children)
          (conjunction-Judges no_children true (λ z. refl))
    cover_group-Gives (present all) = cover_all-Gives all no_children true (λ z. refl)

    cover_all-Gives :
        (cs : Conditions F) (acc : Children F) (b : Bool)
        → (acc.has_unknown ≡ false → b ≡ true)
        → Gives signals (Judges (b && all_satisfied cs signals')) (cover_all r complete cs acc)
    cover_all-Gives nil acc b h =
        Gives-pure signals (Judges (b && true)) (conjunction acc) (conjunction-Judges acc b h)
    cover_all-Gives (cons c cs) acc b h =
        Gives-bind signals (Judges (satisfied c signals')) _ (cover_condition r complete c) _
          (cover_condition-Gives c)
          (λ child j. elim (Bool-cases child.can_be_satisfied) [
            | inr e ↦ rw e (
                Gives-pure signals
                  (Judges (b && (satisfied c signals' && all_satisfied cs signals')))
                  (unsatisfiable (deduplicate_sorted (acc.required ++ child.required_sources)))
                  (unsatisfiable-Judges _ _ (ground (arith, j.refuted e))))
            | inl e ↦ rw e (
                subst
                  (λ x.
                    Gives signals (Judges x) (cover_all r complete cs (cover_conjunct acc child)))
                  (and_assoc b (satisfied c signals') (all_satisfied cs signals'))
                  (cover_all-Gives cs (cover_conjunct acc child) (b && satisfied c signals')
                    (λ k. conjunct_known acc child b (satisfied c signals') h j e k)))
          ])

    cover_any-Gives :
        (cs : Conditions F) (acc : Children F) (b : Bool)
        → (acc.has_matched ≡ true → b ≡ true)
        → (acc.satisfiable ≡ false → b ≡ false)
        → Gives signals (Judges (b || some_satisfied cs signals')) (cover_any r complete cs acc)
    cover_any-Gives nil acc b h g =
        Gives-pure signals (Judges (b || false)) (disjunction acc) (disjunction-Judges acc b h g)
    cover_any-Gives (cons c cs) acc b h g =
        Gives-bind signals (Judges (satisfied c signals')) _ (cover_condition r complete c) _
          (cover_condition-Gives c)
          (λ child j.
            subst
              (λ x. Gives signals (Judges x) (cover_any r complete cs (cover_disjunct acc child)))
              (or_assoc b (satisfied c signals') (some_satisfied cs signals'))
              (cover_any-Gives cs (cover_disjunct acc child) (b || satisfied c signals')
                (disjunct_known acc child b (satisfied c signals') h g j).0
                (disjunct_known acc child b (satisfied c signals') h g j).1))

module _ {F : Type 0} ⦃fl : Float64 F⦄ ⦃tx : Text⦄ where
  uncached-Caches : (signals : List (Signal F)) → Caches signals (map uncached signals)
  uncached-Caches [] = (tt, refl)
  uncached-Caches (s ∷ rest) =
      let (v, e) = uncached-Caches rest in ((uncached-IsFaithful s, v), ap (λ x. s ∷ x) e)

  -- For a registry that NewCapabilityRegistry built, and any signals that hold the observed ones
  -- and besides only signals of a supported type from a source that is incomplete for it: if
  -- EvaluateConditionCoverage gives a result that is not matched, it cannot be satisfied and those
  -- signals do not satisfy the condition; if it is matched, they do; and if it says that the
  -- condition cannot be satisfied, they do not.
  pub evaluate_condition_coverage_sound :
      (capabilities : List Capability) (r : CapabilityRegistry)
      (complete : Bytes → SignalType → Bool) (signals signals' : List (Signal F)) (c : Condition F)
      (res : CoverageResult F)
      → new_capability_registry capabilities ≡ ok r
      → Completes r complete signals signals'
      → evaluate_condition_coverage r complete c signals ≡ ok res
      → (res.state ≡ not_matched → (res.can_be_satisfied ≡ false) × (satisfied c signals' ≡ false))
        × (res.state ≡ matched → satisfied c signals' ≡ true)
        × (res.can_be_satisfied ≡ false → satisfied c signals' ≡ false)
  unfolding evaluate_condition_coverage
  evaluate_condition_coverage_sound capabilities r complete signals signals' c res built more h =
      let capable =
        λ (e : Evidence F) (s : Bytes) (supported : supports r s e.type ≡ true)
            (allows : Allows e.source s).
          let (declared, sources) = new_capability_registry-exact capabilities r e s e.type built in
          sources.1 (declared.0 supported, allows) in
      let j : Judges (satisfied c signals') res =
        Meets-ok signals (Judges (satisfied c signals')) _ res
          (cover_condition-Gives r complete capable signals signals' more c (map uncached signals)
            (uncached-Caches signals))
          h in
      (
        (λ e. let can = j.consistent (ap is_not_matched e) in (can, j.refuted can)),
        (λ e. j.proved (ap is_matched e)),
        j.refuted,
      )
