-- ===== src/Tests/Coverage.antt =====
-- A registry of two sources, of which one was not observed completely.
use hemera.Base.{
  ◌≡◌, ◌↔◌, refl, subst, inl, inr, true, false, Bool, Bytes, bytes, bytes_eq, bytes_lt, has, lookup,
  put, some, none, ok, List, [], ◌∷◌, In,
}
use hemera.Float.Fixed.{Fixed, plus, fixed_float}
use hemera.Model.{Signal, SignalType, is_valid_type}
use hemera.Sorted.{insert_string, sort_strings, drop_repeats, deduplicate_sorted}
use hemera.Sorted.Order.{IsAscending}
use hemera.Sorted.Distinct.{deduplicate_sorted-IsAscending}
use hemera.Analysis.{Capability, capability_lt, insert_capability, sort_capabilities}
use hemera.Rules.Schema.{Condition, condition, absent}
use hemera.Rules.Capabilities.{
  CapabilityRegistry, supports, add_capabilities, new_capability_registry, capable_sources,
}
use hemera.Rules.Capabilities.Consistent.{declares, Allows, new_capability_registry-exact}
use hemera.Rules.Match.Meaning.{satisfied}
use hemera.Rules.Cache.{prepare_evidence}
use hemera.Rules.Pattern.{prepare_text_pattern}
use hemera.Rules.Match.{strongest_match, scan_signals}
use hemera.Rules.Coverage.{
  CoverageResult, not_matched, matched, unknown, incomplete_of, cover_condition,
  evaluate_condition_coverage,
}
use hemera.Rules.Coverage.Sound.{Completes, evaluate_condition_coverage_sound}
use hemera.Tests.Scores.{ascii_text, sign, seen}

deduplicate_sorted-IsAscending_example :
    IsAscending (deduplicate_sorted (bytes "b" ∷ bytes "a" ∷ bytes "b" ∷ []))
    × ((a : Bytes)
        → In a (deduplicate_sorted (bytes "b" ∷ bytes "a" ∷ bytes "b" ∷ []))
          ↔ In a (bytes "b" ∷ bytes "a" ∷ bytes "b" ∷ []))
deduplicate_sorted-IsAscending_example =
    deduplicate_sorted-IsAscending (bytes "b" ∷ bytes "a" ∷ bytes "b" ∷ [])

abbrev capabilities : List Capability
capabilities =
    declares (bytes "b") (bytes "cookie")
    ∷ declares (bytes "a") (bytes "cookie")
    ∷ declares (bytes "b") (bytes "cookie")
    ∷ []

abbrev registry : CapabilityRegistry
registry = record {
  capabilities = declares (bytes "a") (bytes "cookie") ∷ declares (bytes "b") (bytes "cookie") ∷ [];
  by_type = (bytes "cookie", bytes "a" ∷ bytes "b" ∷ []) ∷ [];
  by_source = (bytes "b", bytes "cookie" ∷ []) ∷ (bytes "a", bytes "cookie" ∷ []) ∷ [];
}

built : new_capability_registry capabilities ≡ ok registry
unfolding new_capability_registry add_capabilities supports has lookup put bytes_eq bytes_lt
    is_valid_type sort_strings insert_string sort_capabilities insert_capability capability_lt
built = refl

new_capability_registry-exact_example :
    ((supports registry (bytes "a") (bytes "cookie") ≡ true)
      ↔ In (declares (bytes "a") (bytes "cookie")) capabilities)
    × (In (bytes "a") (capable_sources registry sign)
        ↔ (In (declares (bytes "a") (bytes "cookie")) capabilities × Allows none (bytes "a")))
new_capability_registry-exact_example =
    new_capability_registry-exact capabilities registry sign (bytes "a") (bytes "cookie") built

-- only the source `b` was observed completely
abbrev complete : Bytes → SignalType → Bool
complete source t = bytes_eq source (bytes "b")

abbrev late : Signal Fixed
late = record seen { source = bytes "a"; key = bytes "k" }

abbrev unseen : List (Signal Fixed)
unseen = late ∷ []

completes : Completes {F = Fixed} registry complete [] unseen
unfolding supports has lookup bytes_eq
completes = record {
  kept = λ s i. absurd i;
  missed = λ s. elim [
    | inl e ↦ inr (
        subst (λ x. (supports registry x.source x.type ≡ true) × (complete x.source x.type ≡ false))
          e (refl, refl))
    | inr i ↦ absurd i
  ];
}

abbrev has_cookie : Condition Fixed
has_cookie = condition (some sign) absent absent

abbrev open_result : CoverageResult Fixed
open_result = record {
  state = unknown;
  can_be_satisfied = true;
  potential_evidence =
      record {
        id = bytes "e1";
        group = [];
        score = plus 8000;
        incomplete_sources = bytes "a" ∷ [];
        is_unknown = true;
      }
      ∷ [];
  incomplete_sources = bytes "a" ∷ [];
  required_sources = bytes "a" ∷ bytes "b" ∷ [];
}

covered : evaluate_condition_coverage registry complete has_cookie [] ≡ ok open_result
unfolding evaluate_condition_coverage cover_condition strongest_match scan_signals prepare_evidence
    prepare_text_pattern incomplete_of capable_sources deduplicate_sorted sort_strings insert_string
    drop_repeats lookup bytes_eq bytes_lt
covered = refl

evaluate_condition_coverage_sound_example :
    (open_result.state ≡ not_matched
      → (open_result.can_be_satisfied ≡ false) × (satisfied has_cookie unseen ≡ false))
    × (open_result.state ≡ matched → satisfied has_cookie unseen ≡ true)
    × (open_result.can_be_satisfied ≡ false → satisfied has_cookie unseen ≡ false)
evaluate_condition_coverage_sound_example =
    evaluate_condition_coverage_sound capabilities registry complete [] unseen has_cookie
      open_result built completes covered
