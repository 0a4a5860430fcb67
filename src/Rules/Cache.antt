-- ===== src/Rules/Cache.antt =====
-- internal/rules/match.go: cachedSignal, which keeps the case-folded text of a field once it has been
-- computed, and the matching of one evidence predicate against it. A method that writes the cache
-- returns the new signal beside its result.
pub mod Transparent
use hemera.Base.{
  ℕ, zero, suc, Bool, true, false, not, Bytes, bytes_eq, Option, some, none, Result, ok, ◌>>=◌,
  if◌then◌else◌, List, [], ◌∷◌, get_elem?, set, or_zero,
}
use hemera.Text.{Text}
use hemera.Model.{Signal}
use hemera.Rules.Schema.{TextPattern, Evidence}
use hemera.Rules.Pattern.{
  PreparedPattern, PatternError, unprepared, prepare_text_pattern, needs_case_fold, pattern_matches,
}

-- `case_folded` and `case_folded_ok` are arrays of four entries, one for each field.
pub record CachedSignal (F : Type 0) : Type 0 where
  pub signal : Signal F
  pub case_folded : List Bytes
  pub case_folded_ok : List Bool

pub record PreparedEvidence (F : Type 0) : Type 0 where
  pub evidence : Evidence F
  pub source : PreparedPattern
  pub key : PreparedPattern
  pub value : PreparedPattern
  pub url : PreparedPattern

-- signalFieldSource, signalFieldKey, signalFieldValue, signalFieldURL
abbrev pub field_source : ℕ
field_source = 0

abbrev pub field_key : ℕ
field_key = 1

abbrev pub field_value : ℕ
field_value = 2

abbrev pub field_url : ℕ
field_url = 3

module _ {F : Type 0} where
  -- a signal with a zeroed cache
  abbrev pub uncached : Signal F → CachedSignal F
  uncached s = record {
    signal = s;
    case_folded = [] ∷ [] ∷ [] ∷ [] ∷ [];
    case_folded_ok = false ∷ false ∷ false ∷ false ∷ [];
  }

  -- cachedSignal.rawField
  unfoldable pub raw_field : ℕ → Signal F → Bytes
  raw_field zero s = s.source
  raw_field (suc zero) s = s.key
  raw_field (suc (suc zero)) s = s.value
  raw_field (suc (suc (suc zero))) s = s.url
  raw_field (suc (suc (suc (suc _)))) s = []

abbrev pub prepare_optional : ⦃tx : Text⦄ → Option TextPattern → Result PatternError PreparedPattern
prepare_optional none = ok unprepared
prepare_optional (some p) = prepare_text_pattern p

module _ {F : Type 0} ⦃tx : Text⦄ where
  -- cachedSignal.field
  unfoldable pub field : ℕ → Bool → CachedSignal F → Bytes × CachedSignal F
  field f case_insensitive s =
      let value = raw_field f s.signal in
      if not case_insensitive
      then (value, s)
      else if or_zero false (get_elem? s.case_folded_ok f)
      then (or_zero [] (get_elem? s.case_folded f), s)
      else (
        or_zero [] (get_elem? (set s.case_folded f (tx.to_lower value)) f),
        record s {
          case_folded = set s.case_folded f (tx.to_lower value);
          case_folded_ok = set s.case_folded_ok f true;
        },
      )

  -- prepareEvidence
  unfoldable pub prepare_evidence : Evidence F → Result PatternError (PreparedEvidence F)
  prepare_evidence e = do
    source ← prepare_optional e.source
    key ← prepare_optional e.key
    value ← prepare_optional e.value
    url ← prepare_optional e.url
    ok (record { evidence = e; source = source; key = key; value = value; url = url })

  abbrev field_matches :
      Option TextPattern → PreparedPattern → ℕ → CachedSignal F → Bool × CachedSignal F
  field_matches none p f s = (true, s)
  field_matches (some _) p f s =
      let (value, s') = field f (needs_case_fold p) s in (pattern_matches p value, s')

  -- the loop of preparedEvidence.matches, which stops at the first field that does not match
  abbrev pub fields_match : List (PreparedPattern × ℕ) → CachedSignal F → Bool × CachedSignal F
  fields_match [] s = (true, s)
  fields_match ((p, f) ∷ rest) s =
      let (held, s') = field_matches p.pattern p f s in
      if held then fields_match rest s' else (false, s')

  abbrev pub pattern_fields : PreparedEvidence F → List (PreparedPattern × ℕ)
  pattern_fields p =
      (p.source, field_source)
      ∷ (p.key, field_key)
      ∷ (p.value, field_value)
      ∷ (p.url, field_url)
      ∷ []

  -- preparedEvidence.matches
  unfoldable pub evidence_matches : PreparedEvidence F → CachedSignal F → Bool × CachedSignal F
  evidence_matches p s =
      if not (bytes_eq p.evidence.type s.signal.type)
      then (false, s)
      else fields_match (pattern_fields p) s
