-- ===== src/Rules/Capabilities.antt =====
-- internal/rules/capability_registry.go: which sources can produce which signals, and the check that a
-- rule set asks for nothing else.
pub mod Consistent
use hemera.Base.{
  ℕ, zero, suc, Bool, true, false, ◌&&◌, ◌||◌, not, Bytes, bytes_eq, has, Option, some, none,
  Result, ok, err, ◌>>=◌, wrap_error, if◌then◌else◌, List, [], ◌∷◌, ◌++◌, length, ◌==◌, Table,
  lookup, put, or_zero, map,
}
use hemera.Float.{Float64}
use hemera.Text.{Text}
use hemera.Model.{SignalType, is_valid_type}
use hemera.Analysis.{Capability, sort_capabilities, implemented_capabilities}
use hemera.Sorted.{sort_strings}
use hemera.Rules.Schema.{
  TextPattern, Evidence, Condition, condition, Group, absent, present, Conditions, nil, cons, Rule,
  RuleSet,
}
use hemera.Rules.Pattern.{PatternError, text_matches}
use hemera.Rules.Validate.{SchemaError}
use hemera.Rules.Validate.Document.{validate_rule_set}

pub record CapabilityRegistry : Type 0 where
  pub capabilities : List Capability
  pub by_type : Table (List Bytes)
  pub by_source : Table (List SignalType)

-- A position counts from 0.
pub data RegistryError : Type 0 where
  bad_source bad_type : ℕ → RegistryError
  empty_registry : RegistryError
  unsupported_source unmatched_source no_source : Bytes → RegistryError
  invalid_rules : SchemaError → RegistryError

abbrev pub empty_capabilities : CapabilityRegistry
empty_capabilities = record { capabilities = []; by_type = []; by_source = [] }

-- Go's read of a map of slices or of sets.
abbrev pub entries : Bytes → Table (List Bytes) → List Bytes
entries k t = or_zero [] (lookup k t)

-- CapabilityRegistry.Supports
unfoldable pub supports : CapabilityRegistry → Bytes → SignalType → Bool
supports r source signal_type = has signal_type (entries source r.by_source)

-- one capability that is not a duplicate
abbrev pub add_capability : CapabilityRegistry → Capability → CapabilityRegistry
add_capability r c = record {
  capabilities = r.capabilities ++ (c ∷ []);
  by_type = put c.signal_type (entries c.signal_type r.by_type ++ (c.source ∷ [])) r.by_type;
  by_source = put c.source (entries c.source r.by_source ++ (c.signal_type ∷ [])) r.by_source;
}

module _ ⦃tx : Text⦄ where
  -- the loop of NewCapabilityRegistry, from the capability at position `i`
  unfoldable pub add_capabilities :
      ℕ → List Capability → CapabilityRegistry → Result RegistryError CapabilityRegistry
  unfolding supports
  add_capabilities i [] r = ok r
  add_capabilities i (c ∷ cs) r =
      let next =
        add_capabilities (suc i) cs
          (if supports r c.source c.signal_type then r else add_capability r c) in
      if bytes_eq (tx.trim_space c.source) [] || not (bytes_eq (tx.trim_space c.source) c.source)
      then err (bad_source i)
      else if not (is_valid_type c.signal_type)
      then err (bad_type i)
      else next

  abbrev sort_entries : Table (List Bytes) → Table (List Bytes)
  sort_entries = map (λ e. (e.0, sort_strings e.1))

  abbrev sort_registry : CapabilityRegistry → CapabilityRegistry
  sort_registry r = record r {
    capabilities = sort_capabilities r.capabilities;
    by_type = sort_entries r.by_type;
  }

  -- NewCapabilityRegistry
  unfoldable pub new_capability_registry : List Capability → Result RegistryError CapabilityRegistry
  new_capability_registry cs =
      (add_capabilities 0 cs empty_capabilities) >>= λ r. ok (sort_registry r)

  -- DefaultCapabilityRegistry
  unfoldable pub default_capability_registry : Result RegistryError CapabilityRegistry
  default_capability_registry = new_capability_registry implemented_capabilities

  -- `matched, err := evidence.Source.matches(candidate); err == nil && matched`
  abbrev pub source_matches : TextPattern → Bytes → Bool
  source_matches p candidate = elim (text_matches p candidate) [ ok b ↦ b | err _ ↦ false ]

  abbrev pub filter_sources : TextPattern → List Bytes → List Bytes
  filter_sources p [] = []
  filter_sources p (s ∷ ss) =
      if source_matches p s then s ∷ filter_sources p ss else filter_sources p ss

  abbrev pub constrain : Option TextPattern → List Bytes → List Bytes
  constrain none candidates = candidates
  constrain (some p) candidates = filter_sources p candidates

  -- CapabilityRegistry.CapableSources
  unfoldable pub capable_sources : {F : Type 0} → CapabilityRegistry → Evidence F → List Bytes
  capable_sources r e = constrain e.source (entries e.type r.by_type)

  abbrev pub no_producer : {F : Type 0} → Evidence F → RegistryError
  no_producer e = elim e.source [
    | none ↦ no_source e.type
    | some p ↦ elim p.exact [ some s ↦ unsupported_source s | none ↦ unmatched_source e.type ]
  ]

  -- validateEvidenceCapability
  unfoldable pub validate_evidence_capability :
      {F : Type 0} → CapabilityRegistry → Evidence F → Result RegistryError (Unit {0})
  validate_evidence_capability r e =
      if not (length (capable_sources r e) == 0) then ok tt else err (no_producer e)

  module _ {F : Type 0} (r : CapabilityRegistry) where
    unfoldable mutual
      -- validateConditionCapabilities
      pub validate_condition_capabilities : Condition F → Result RegistryError (Unit {0})
      validate_condition_capabilities (condition (some e) all any) =
          validate_evidence_capability r e
      validate_condition_capabilities (condition none all (present any)) =
          validate_children_capabilities any
      validate_condition_capabilities (condition none all absent) = validate_group_capabilities all

      pub validate_group_capabilities : Group F → Result RegistryError (Unit {0})
      validate_group_capabilities absent = ok tt
      validate_group_capabilities (present all) = validate_children_capabilities all

      pub validate_children_capabilities : Conditions F → Result RegistryError (Unit {0})
      validate_children_capabilities nil = ok tt
      validate_children_capabilities (cons c cs) = do
        _ ← validate_condition_capabilities c
        validate_children_capabilities cs

    -- the loops over the negative and the ambiguous evidence
    unfoldable pub validate_evidence_capabilities :
        List (Evidence F) → Result RegistryError (Unit {0})
    validate_evidence_capabilities [] = ok tt
    validate_evidence_capabilities (e ∷ es) = do
      _ ← validate_evidence_capability r e
      validate_evidence_capabilities es

    unfoldable pub validate_rules_capabilities : List (Rule F) → Result RegistryError (Unit {0})
    validate_rules_capabilities [] = ok tt
    validate_rules_capabilities (rule ∷ rules) = do
      _ ← validate_condition_capabilities rule.match
      _ ← validate_evidence_capabilities rule.negative_evidence
      _ ← validate_evidence_capabilities rule.ambiguous_evidence
      validate_rules_capabilities rules

    -- ValidateRuleSetCapabilities
    unfoldable pub validate_rule_set_capabilities :
        ⦃fl : Float64 F⦄ → RuleSet F → Result RegistryError (Unit {0})
    validate_rule_set_capabilities s = do
      _ ← wrap_error invalid_rules (validate_rule_set s)
      _ ← (if length r.capabilities == 0 then err empty_registry else ok tt)
      validate_rules_capabilities s.rules
