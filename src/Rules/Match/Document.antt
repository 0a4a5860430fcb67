-- ===== src/Rules/Match/Document.antt =====
-- Match of internal/rules/match.go: the validation of its arguments, and the matching of every rule from
-- empty caches.
use hemera.Base.{
  ℕ, suc, ◌≡◌, refl, ◌∙◌, ap, some, none, Result, ok, err, ◌>>=◌, wrap_error, wrap_error-ok, List,
  [], ◌∷◌, map, ok_injective, >>=-eq-ok, sym,
}
use hemera.Float.{Float64}
use hemera.Text.{Text}
use hemera.Model.{Signal, SignalError, validate_signal}
use hemera.Rules.Schema.{Rule, RuleSet}
use hemera.Rules.Pattern.{PatternError}
use hemera.Rules.Cache.{CachedSignal, uncached}
use hemera.Rules.Validate.{SchemaError}
use hemera.Rules.Validate.Document.{validate_rule_set}
use hemera.Rules.Match.{
  Matching, MatchResult, match_rule, match_rules, evaluate_condition, match_evidence_list,
}
use hemera.Rules.Match as Matches

pub data MatchError : Type 0 where
  schema_error : SchemaError → MatchError
  invalid_signal : ℕ → SignalError → MatchError
  pattern_error : PatternError → MatchError

module _ {F : Type 0} ⦃fl : Float64 F⦄ ⦃tx : Text⦄ where
  -- the loop over the signals, of which the first is the i-th
  unfoldable pub validate_signals : ℕ → List (Signal F) → Result MatchError (Unit {0})
  validate_signals i [] = ok tt
  validate_signals i (s ∷ rest) = elim (validate_signal s) [
    | some e ↦ err (invalid_signal i e)
    | none ↦ validate_signals (suc i) rest
  ]

  -- Match
  unfoldable pub match_document :
      RuleSet F → List (Signal F) → Result MatchError (List (MatchResult F))
  match_document s signals = do
    _ ← wrap_error schema_error (validate_rule_set s)
    _ ← validate_signals 0 signals
    wrap_error pattern_error (match_rules s.rules (map uncached signals)).0

  -- The first of two chained matchings ends well if both do.
  chain_given :
      {A B : Type 0} (r : Result PatternError A × List (CachedSignal F)) (f : A → Matching F B)
      (c : List (CachedSignal F)) {b : B}
      → (Matches.◌>>=◌ (λ _. r) f c).0 ≡ ok b
      → (a : A) × (c' : List (CachedSignal F)) × (r.0 ≡ ok a) × ((f a c').0 ≡ ok b)
  chain_given (ok a, c') f c h = (a, c', refl, h)
  chain_given (err e, c') f c h = cc

  chain :
      {A B : Type 0} (m : Matching F A) (f : A → Matching F B) (c : List (CachedSignal F)) {b : B}
      → (Matches.◌>>=◌ m f c).0 ≡ ok b
      → (a : A) × (c' : List (CachedSignal F)) × ((m c).0 ≡ ok a) × ((f a c').0 ≡ ok b)
  chain m f c h = chain_given (m c) f c h

  match_rule-id :
      (r : Rule F) (c : List (CachedSignal F)) (m : MatchResult F)
      → (match_rule r c).0 ≡ ok m
      → m.rule_id ≡ r.id
  unfolding match_rule
  match_rule-id r c m h =
      let (o, c', e, h') = chain (evaluate_condition r.match) _ c h in
      let (n, c'', e', h'') = chain (match_evidence_list r.negative_evidence) _ c' h' in
      let (a, c''', e'', h''') = chain (match_evidence_list r.ambiguous_evidence) _ c'' h'' in
      sym (ap (λ x. x.rule_id) (ok_injective h'''))

  match_rules-ids :
      (rs : List (Rule F)) (c : List (CachedSignal F)) (ms : List (MatchResult F))
      → (match_rules rs c).0 ≡ ok ms
      → map (λ m. m.rule_id) ms ≡ map (λ r. r.id) rs
  unfolding match_rules
  match_rules-ids [] c ms h = ap (map (λ m. m.rule_id)) (sym (ok_injective h))
  match_rules-ids (r ∷ rs) c ms h =
      let (m, c', e, h') = chain (match_rule r) _ c h in
      let (rest, c'', e', h'') = chain (match_rules rs) _ c' h' in
      ap (map (λ m. m.rule_id)) (sym (ok_injective h''))
      ∙ ap (λ x. x ∷ map (λ m. m.rule_id) rest) (match_rule-id r c m e)
      ∙ ap (λ x. r.id ∷ x) (match_rules-ids rs c' rest e')

  -- If Match succeeds, the rule set is valid and there is one result for each rule, in their order.
  pub match_document-ids :
      (s : RuleSet F) (signals : List (Signal F)) (ms : List (MatchResult F))
      → match_document s signals ≡ ok ms
      → (validate_rule_set s ≡ ok tt) × (map (λ m. m.rule_id) ms ≡ map (λ r. r.id) s.rules)
  unfolding match_document
  match_document-ids s signals ms h =
      let (u, e, h') = >>=-eq-ok (wrap_error schema_error (validate_rule_set s)) _ h in
      let (v, f, h'') = >>=-eq-ok (validate_signals 0 signals) _ h' in
      (
        wrap_error-ok schema_error _ e,
        match_rules-ids s.rules (map uncached signals) ms (wrap_error-ok pattern_error _ h''),
      )
