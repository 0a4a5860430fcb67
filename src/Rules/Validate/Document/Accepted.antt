-- ===== src/Rules/Validate/Document/Accepted.antt =====
-- What an accepted rule set satisfies: unique identifiers, and known dependencies without cycles.
use hemera.Base.{
  ℕ, suc, Bool, true, false, not, ◌||◌, ◌≡◌, refl, sym, ◌∙◌, ap, subst, Bytes, bytes_eq, has, ◌==◌,
  ltb, length, Option, some, none, ok, >>=-eq-ok, ok_injective, List, [], ◌∷◌, length-map, Table,
  lookup, put, lookup-put, In, In-map_inv, Unique, Within, inl, inr, ◌⊎◌, bytes_eq→eq, Bool-cases,
  arith,
}
use hemera.Float.{Float64}
use hemera.Text.{Text}
use hemera.Rules.Schema.{Rule, RuleSet}
use hemera.Rules.Validate.{
  SchemaError, schema_version_v1, current_schema_version, max_rules, bad_version, no_rules,
  too_many_rules,
}
use hemera.Rules.Validate.Evidence.{check}
use hemera.Rules.Validate.Graph.{Visit}
use hemera.Rules.Validate.Graph.Acyclic.{visit_all-Within}
use hemera.Rules.Validate.Document.{
  validate_rule, is_absent, requires_in, requires_of, validate_rules, validate_requires,
  validate_conflicts_with, validate_references, validate_dependency_graph, validate_rule_set,
}
use hemera.Scoring.Detections.{index_rules, rule_requires}
use hemera.Scoring.Detections.Tables.{rule_ids, lookup-put_self, lookup-index_rules}
use hemera.Scoring.Detections.Report.{IsAcyclic}

check-eq-ok : (b : Bool) (e : SchemaError) {u : Unit {0}} → check b e ≡ ok u → b ≡ true
check-eq-ok true e h = refl
check-eq-ok false e h = cc

absent→none : {V : Type 0} (o : Option V) → is_absent o ≡ true → o ≡ none
absent→none none h = refl
absent→none (some v) h = cc

module _ {F : Type 0} ⦃fl : Float64 F⦄ ⦃tx : Text⦄ where
  -- The first loop accepts only new identifiers, and its table is the one that scoring builds.
  validate_rules_lem :
      (rs : List (Rule F)) (version : ℕ) (t t' : Table (Rule F))
      → validate_rules rs version t ≡ ok t'
      → (t' ≡ index_rules rs t)
        × Unique (rule_ids rs)
        × ((id : Bytes) → In id (rule_ids rs) → lookup id t ≡ none)
        × ((id : Bytes) (r : Rule F)
            → lookup id t' ≡ some r
            → (lookup id t ≡ some r) ⊎ In id (rule_ids rs))
  unfolding validate_rules index_rules
  validate_rules_lem [] version t t' h = (
    sym (ok_injective h),
    tt,
    λ id i. absurd i,
    λ id r e. inl (ap (lookup id) (ok_injective h) ∙ e),
  )
  validate_rules_lem (r ∷ rs) version t t' h =
      let (_, _, h₁) = >>=-eq-ok (validate_rule r version) _ h in
      let (_, c, h₂) = >>=-eq-ok (check (is_absent (lookup r.id t)) _) _ h₁ in
      let (same, unique, fresh, origin) = validate_rules_lem rs version (put r.id r t) t' h₂ in
      let new : lookup r.id t ≡ none = absent→none _ (check-eq-ok _ _ c) in
      let not_later : ¬ (In r.id (rule_ids rs)) =
        λ i. cc (lookup-put_self r.id r t, fresh r.id i) in
      (
        same,
        (not_later, unique),
        λ id. elim [
          | inl e ↦ ap (λ x. lookup x t) (sym e) ∙ new
          | inr i ↦ ground (arith, lookup-put r.id id r t, fresh id i)
        ],
        λ id x e. elim (origin id x e) [
          | inl old ↦ moved id x old (Bool-cases (bytes_eq r.id id))
          | inr i ↦ inr (inr i)
        ],
      )
    where
      moved :
          (id : Bytes) (x : Rule F)
          → lookup id (put r.id r t) ≡ some x
          → (bytes_eq r.id id ≡ true) ⊎ (bytes_eq r.id id ≡ false)
          → (lookup id t ≡ some x) ⊎ In id (rule_ids (r ∷ rs))
      moved id x old (inl e) = inr (inl (bytes_eq→eq r.id id e))
      moved id x old (inr e) = inl (ground (arith, lookup-put r.id id r t))

  validate_requires-known :
      (id : Bytes) (by_id : Table (Rule F)) (ds seen : List Bytes) {out : List Bytes}
      → validate_requires id by_id ds seen ≡ ok out
      → (d : Bytes) → In d ds
      → (r : Rule F) × (lookup d by_id ≡ some r)
  unfolding validate_requires
  validate_requires-known id by_id [] seen h d i = absurd i
  validate_requires-known id by_id (x ∷ ds) seen h d i =
      let (_, _, h₁) = >>=-eq-ok (check (not (bytes_eq x id)) _) _ h in
      let (_, c, h₂) = >>=-eq-ok (check (not (is_absent (lookup x by_id))) _) _ h₁ in
      let (_, _, h₃) = >>=-eq-ok (check (not (has x seen)) _) _ h₂ in
      pick i (found (lookup x by_id) (check-eq-ok _ _ c))
        (validate_requires-known id by_id ds (x ∷ seen) h₃ d)
    where
      found : (o : Option (Rule F)) → not (is_absent o) ≡ true → (r : Rule F) × (o ≡ some r)
      found none e = cc
      found (some r) e = (r, refl)

      pick :
          (x ≡ d) ⊎ In d ds
          → ((r : Rule F) × (lookup x by_id ≡ some r))
          → (In d ds → (r : Rule F) × (lookup d by_id ≡ some r))
          → (r : Rule F) × (lookup d by_id ≡ some r)
      pick (inl e) (r, f) g = (r, ap (λ y. lookup y by_id) (sym e) ∙ f)
      pick (inr j) p g = g j

  validate_references-known :
      (rs : List (Rule F)) (by_id : Table (Rule F)) {u : Unit {0}}
      → validate_references rs by_id ≡ ok u
      → (r : Rule F) → In r rs
      → (d : Bytes) → In d r.requires
      → (s : Rule F) × (lookup d by_id ≡ some s)
  unfolding validate_references
  validate_references-known [] by_id h r i d j = absurd i
  validate_references-known (x ∷ rs) by_id h r i d j =
      let (seen, c, h₁) = >>=-eq-ok (validate_requires x.id by_id x.requires []) _ h in
      let (_, _, h₂) = >>=-eq-ok (validate_conflicts_with x.id by_id seen x.conflicts []) _ h₁ in
      pick i (validate_requires-known x.id by_id x.requires [] c)
        (λ k. validate_references-known rs by_id h₂ r k d j)
    where
      pick :
          (x ≡ r) ⊎ In r rs
          → ((e : Bytes) → In e x.requires → (s : Rule F) × (lookup e by_id ≡ some s))
          → (In r rs → (s : Rule F) × (lookup d by_id ≡ some s))
          → (s : Rule F) × (lookup d by_id ≡ some s)
      pick (inl e) f g = f d (subst (λ (y : Rule F). In d y.requires) (sym e) j)
      pick (inr k) f g = g k

  accepted :
      (rules : List (Rule F)) (version : ℕ) (by_id : Table (Rule F)) (states : Table Visit)
      {u : Unit {0}}
      → validate_rules rules version [] ≡ ok by_id
      → validate_references rules by_id ≡ ok u
      → validate_dependency_graph rules by_id ≡ ok states
      → IsAcyclic rules
  unfolding validate_dependency_graph rule_requires
  accepted rules version by_id states e f g =
      let (same, unique, _, origin) = validate_rules_lem rules version [] by_id e in
      let known : (r : Rule F)
          → In r rules
          → (id : Bytes) → In id r.requires
          → In id (rule_ids rules) =
        λ r i id j.
          let (x, found) = validate_references-known rules by_id f r i id j in
          elim (origin id x found) [ inl old ↦ unfold lookup in cc | inr k ↦ k ] in
      let below : (id : Bytes)
          → In id (rule_ids rules)
          → (d : Bytes) → In d (requires_of by_id id)
          → In d (rule_ids rules) =
        λ id i d j.
          let (r, k, name) = In-map_inv (λ (x : Rule F). x.id) id rules i in
          let found : lookup id by_id ≡ some r =
            ap (λ x. lookup x by_id) (sym name)
            ∙ ap (lookup r.id) same
            ∙ lookup-index_rules r rules [] unique k in
          known r k d (subst (λ o. In d (requires_in o)) found j) in
      record {
        unique = unique;
        known = known;
        within = λ id i.
            subst (λ t. Within (requires_of t) (length rules) id) same
              (subst (λ n. Within (requires_of by_id) n id)
                (length-map (λ (r : Rule F). r.id) rules)
                (visit_all-Within (requires_of by_id) (rule_ids rules) below (suc (length rules))
                  states g id i));
      }

  -- A rule set that RuleSet.Validate accepts has unique identifiers, requires only rules of the
  -- set, and has no cycle of dependencies.
  pub validate_rule_set-IsAcyclic :
      (s : RuleSet F) → validate_rule_set s ≡ ok tt → IsAcyclic s.rules
  unfolding validate_rule_set validate_dependency_graph
  validate_rule_set-IsAcyclic s h =
      let (_, _, h₁) =
        >>=-eq-ok
          (check
            (s.schema_version == schema_version_v1 || s.schema_version == current_schema_version)
            bad_version)
          _ h in
      let (_, _, h₂) = >>=-eq-ok (check (not (length s.rules == 0)) no_rules) _ h₁ in
      let (_, _, h₃) =
        >>=-eq-ok (check (not (ltb max_rules (length s.rules))) too_many_rules) _ h₂ in
      let (by_id, e, h₄) = >>=-eq-ok (validate_rules s.rules s.schema_version []) _ h₃ in
      let (_, references, h₅) = >>=-eq-ok (validate_references s.rules by_id) _ h₄ in
      let (states, walked, _) = >>=-eq-ok (validate_dependency_graph s.rules by_id) _ h₅ in
      accepted s.rules s.schema_version by_id states e references walked
