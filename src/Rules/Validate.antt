-- ===== src/Rules/Validate.antt =====
-- internal/rules/schema.go: the checks of RuleSet.Validate. An error carries what its message names.
pub mod Evidence
pub mod Graph
pub mod Document
use hemera.Base.{
  ℕ, ◌+◌, Bool, true, false, ◌&&◌, ◌||◌, not, Bytes, bytes, has, ◌==◌, leb, List, [], ◌∷◌,
}
use hemera.Float.{Float64}

pub data SchemaError : Type 0 where
  bad_version no_rules too_many_rules : SchemaError
  bad_id no_name bad_category no_vendor bad_minimum_evidence bad_minimum_score : SchemaError
  too_deep bad_kinds empty_group too_many_nodes group_in_v1 : SchemaError
  bad_evidence_id bad_group bad_signal_type bad_weight no_pattern : SchemaError
  empty_operand long_operand bad_operations bad_regex : SchemaError
  minimum_unreachable penalty_group too_much_evidence bad_conflict bad_penalty bad_requires :
      SchemaError
  duplicate_evidence : Bytes → SchemaError
  duplicate_id requires_itself conflicts_itself : Bytes → SchemaError
  requires_unknown repeats_dependency conflicts_unknown : Bytes → Bytes → SchemaError
  repeats_conflict contradictory : Bytes → Bytes → SchemaError
  dependency_cycle : Bytes → SchemaError
  -- the walk over the dependencies did not end with the fuel given
  no_fuel : SchemaError

abbrev pub current_schema_version : ℕ
current_schema_version = 2

abbrev pub schema_version_v1 : ℕ
schema_version_v1 = 1

abbrev pub max_rules : ℕ
max_rules = 1000

abbrev pub max_condition_depth : ℕ
max_condition_depth = 16

abbrev pub max_evidence_per_rule : ℕ
max_evidence_per_rule = 256

abbrev pub max_pattern_bytes : ℕ
max_pattern_bytes = 2048

abbrev pub is_alphanumeric : ℕ → Bool
is_alphanumeric c = (leb b'a' c && leb c b'z') || (leb b'0' c && leb c b'9')

abbrev pub is_separator : ℕ → Bool
is_separator c = c == b'.' || (c == b'_' || c == b'-')

-- The automaton of `[a-z0-9]+(?:[._-][a-z0-9]+)*`; the flag says that the last byte was not a separator.
unfoldable pub identifier_from : Bool → Bytes → Bool
identifier_from b [] = b
identifier_from b (c ∷ s) =
    (is_alphanumeric c || (b && is_separator c)) && identifier_from (is_alphanumeric c) s

-- identifierPattern.MatchString
unfoldable pub is_identifier : Bytes → Bool
unfolding identifier_from
is_identifier = identifier_from false

pub valid_categories : List Bytes
valid_categories =
    bytes "cdn_reverse_proxy"
    ∷ bytes "waf"
    ∷ bytes "bot_management"
    ∷ bytes "captcha_challenge"
    ∷ bytes "client_fingerprinting"
    ∷ bytes "third_party_security"
    ∷ []

-- Category.Valid
unfoldable pub is_valid_category : Bytes → Bool
unfolding has valid_categories
is_valid_category c = has c valid_categories

-- finiteRange
unfoldable pub finite_range : {F : Type 0} ⦃fl : Float64 F⦄ → F → ℕ → ℕ → Bool
finite_range ⦃fl⦄ value minimum maximum =
    not (fl.is_nan value)
    && not (fl.is_inf value)
    && fl.le (fl.of_ℕ minimum) value
    && fl.le value (fl.of_ℕ maximum)
