-- ===== src/Rules/Cache/Transparent.antt =====
-- The case-fold cache of cachedSignal, internal/rules/match.go, against the plain signal.
use hemera.Base.{
  ℕ, zero, suc, ◌<◌, Bool, true, false, ◌&&◌, ◌≡◌, refl, ap, sym, ◌∙◌, Bytes, bytes_eq, Option,
  some, none, if◌then◌else◌, List, [], ◌∷◌, get_elem?, set, length, or_zero, length-set,
  get_elem?-set, All, arith, Bool-cases, inl, inr,
}
use hemera.Text.{Text}
use hemera.Model.{Signal}
use hemera.Rules.Schema.{TextPattern}
use hemera.Rules.Pattern.{PreparedPattern, needs_case_fold, pattern_matches}
use hemera.Rules.Cache.{
  CachedSignal, PreparedEvidence, raw_field, field, field_matches, fields_match, pattern_fields,
  evidence_matches, uncached,
}

module _ {F : Type 0} ⦃tx : Text⦄ where
  -- An entry that is marked as computed is the lower case of its field.
  pub record IsFaithful (s : CachedSignal F) : Type 0 where
    pub folded_length : length s.case_folded ≡ 4
    pub ok_length : length s.case_folded_ok ≡ 4
    pub faithful :
        (i : ℕ)
        → get_elem? s.case_folded_ok i ≡ some true
        → get_elem? s.case_folded i ≡ some (tx.to_lower (raw_field i s.signal))

  -- the text that a pattern is compared with
  abbrev pub field_text : ℕ → Bool → Signal F → Bytes
  field_text f ci s = if ci then tx.to_lower (raw_field f s) else raw_field f s

  abbrev pub field_holds : Option TextPattern → PreparedPattern → ℕ → Signal F → Bool
  field_holds none p f s = true
  field_holds (some _) p f s = pattern_matches p (field_text f (needs_case_fold p) s)

  abbrev pub fields_hold : List (PreparedPattern × ℕ) → Signal F → Bool
  fields_hold [] s = true
  fields_hold ((p, f) ∷ rest) s = field_holds p.pattern p f s && fields_hold rest s

  -- The predicate on plain signals: the type and every given pattern.
  abbrev pub evidence_holds : PreparedEvidence F → Signal F → Bool
  evidence_holds p s = bytes_eq p.evidence.type s.type && fields_hold (pattern_fields p) s

  -- What a cached computation must give back: the plain answer, and a cache that is still faithful
  -- to the same signal.
  pub record Agrees {A : Type 0} (plain : A) (s : CachedSignal F) (result : A × CachedSignal F)
      : Type 0 where
    pub answer : result.0 ≡ plain
    pub kept : IsFaithful result.1
    pub same : result.1.signal ≡ s.signal

  pub uncached-IsFaithful : (s : Signal F) → IsFaithful (uncached s)
  uncached-IsFaithful s = record { folded_length = refl; ok_length = refl; faithful = unset }
    where
      unset :
          (i : ℕ)
          → get_elem? (false ∷ false ∷ false ∷ false ∷ []) i ≡ some true
          → get_elem? ([] ∷ [] ∷ [] ∷ [] ∷ []) i ≡ some (tx.to_lower (raw_field i s))
      unset zero h = cc
      unset (suc zero) h = cc
      unset (suc (suc zero)) h = cc
      unset (suc (suc (suc zero))) h = cc
      unset (suc (suc (suc (suc i)))) h = cc

  store-IsFaithful :
      (s : CachedSignal F) (f : ℕ)
      → f < 4
      → IsFaithful s
      → IsFaithful (record s {
        case_folded = set s.case_folded f (tx.to_lower (raw_field f s.signal));
        case_folded_ok = set s.case_folded_ok f true;
      })
  store-IsFaithful s f h v = record {
    folded_length = length-set s.case_folded f _ ∙ v.folded_length;
    ok_length = length-set s.case_folded_ok f true ∙ v.ok_length;
    faithful = λ i e.
        let folded = get_elem?-set s.case_folded f i (tx.to_lower (raw_field f s.signal)) in
        let marks = get_elem?-set s.case_folded_ok f i true in
        let inside : f < length s.case_folded = omega (arith, v.folded_length) in
        let inside' : f < length s.case_folded_ok = omega (arith, v.ok_length) in
        ground (arith, folded inside, marks inside', v.faithful i);
  }

  pub field_lem :
      (f : ℕ) (ci : Bool) (s : CachedSignal F)
      → f < 4
      → IsFaithful s
      → Agrees (field_text f ci s.signal) s (field f ci s)
  unfolding field
  field_lem f false s h v = record { answer = refl; kept = v; same = refl }
  field_lem f true s h v = elim (Bool-cases (or_zero false (get_elem? s.case_folded_ok f))) [
    | inl set_before ↦
        rw set_before (record { answer = ground (arith, v.faithful f); kept = v; same = refl })
    | inr unset ↦ rw unset (record {
      answer = ground (
        arith,
        get_elem?-set s.case_folded f f (tx.to_lower (raw_field f s.signal)),
        v.folded_length,
      );
      kept = store-IsFaithful s f h v;
      same = refl;
    })
  ]

  field_matches_lem :
      (o : Option TextPattern) (p : PreparedPattern) (f : ℕ) (s : CachedSignal F)
      → f < 4
      → IsFaithful s
      → Agrees (field_holds o p f s.signal) s (field_matches o p f s)
  field_matches_lem none p f s h v = record { answer = refl; kept = v; same = refl }
  field_matches_lem (some t) p f s h v =
      let found = field_lem f (needs_case_fold p) s h v in
      record { answer = ap (pattern_matches p) found.answer; kept = found.kept; same = found.same }

  fields_match_lem :
      (ps : List (PreparedPattern × ℕ)) (s : CachedSignal F)
      → All (λ p. p.1 < 4) ps
      → IsFaithful s
      → Agrees (fields_hold ps s.signal) s (fields_match ps s)
  fields_match_lem [] s h v = record { answer = refl; kept = v; same = refl }
  fields_match_lem ((p, f) ∷ ps) s (h, hs) v =
      let first = field_matches_lem p.pattern p f s h v in
      let s' = (field_matches p.pattern p f s).1 in
      let rest = fields_match_lem ps s' hs first.kept in
      elim (Bool-cases (field_matches p.pattern p f s).0) [
        | inl held ↦ rw held (record {
          answer =
              rest.answer
              ∙ ap (fields_hold ps) first.same
              ∙ sym (ap (λ b. b && fields_hold ps s.signal) (sym first.answer ∙ held));
          kept = rest.kept;
          same = rest.same ∙ first.same;
        })
        | inr failed ↦ rw failed (record {
          answer = sym (ap (λ b. b && fields_hold ps s.signal) (sym first.answer ∙ failed));
          kept = first.kept;
          same = first.same;
        })
      ]

  -- Matching one prepared predicate against a signal with a faithful cache gives the answer for the
  -- plain signal, keeps the signal, and leaves a cache that is still faithful to it.
  pub evidence_matches_lem :
      (p : PreparedEvidence F) (s : CachedSignal F)
      → IsFaithful s
      → Agrees (evidence_holds p s.signal) s (evidence_matches p s)
  unfolding evidence_matches
  evidence_matches_lem p s v = elim (Bool-cases (bytes_eq p.evidence.type s.signal.type)) [
    | inl same ↦
        let fields =
          fields_match_lem (pattern_fields p) s
            (omega arith, (omega arith, (omega arith, (omega arith, tt)))) v in
        rw same fields
    | inr other ↦ rw other (record { answer = refl; kept = v; same = refl })
  ]
