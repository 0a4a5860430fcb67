-- ===== src/Model/Normalized.antt =====
-- pkg/model/signal.go: what Signal.Validate accepts, in terms of the constants and of the order of the
-- confidences.
use hemera.Base.{
  refl, subst, arith, ◌↔◌, ◌≡◌, ◌≢◌, inl, inr, true, false, none, List, [], ◌∷◌, map, Bytes,
  bytes_eq, bytes_eq_iff, has, has→In, In,
}
use hemera.Float.{Float64, IsOrdered, ◌≼◌}
use hemera.Text.{Text}
use hemera.Model.{
  response_header, cookie, script_url, network_request, network_response, network_transaction,
  form_submission, dom_selector, iframe_url, js_global, dns_record, tls_property, redirect,
  page_content, resource_host, SignalConstant, SignalType, type_of, valid_signal_types,
  is_valid_type, is_blank, Signal, validate_signal, validate_signal-IsValidSignal,
}

abbrev constants : List SignalConstant
constants =
    response_header ∷ cookie ∷ script_url ∷ network_request ∷ network_response ∷ network_transaction
    ∷ form_submission ∷ dom_selector ∷ iframe_url ∷ js_global ∷ dns_record ∷ tls_property ∷ redirect
    ∷ page_content ∷ resource_host ∷ []

type_of-valid : (k : SignalConstant) → is_valid_type (type_of k) ≡ true
unfolding is_valid_type valid_signal_types has bytes_eq
type_of-valid response_header = refl
type_of-valid cookie = refl
type_of-valid script_url = refl
type_of-valid network_request = refl
type_of-valid network_response = refl
type_of-valid network_transaction = refl
type_of-valid form_submission = refl
type_of-valid dom_selector = refl
type_of-valid iframe_url = refl
type_of-valid js_global = refl
type_of-valid dns_record = refl
type_of-valid tls_property = refl
type_of-valid redirect = refl
type_of-valid page_content = refl
type_of-valid resource_host = refl

In-map :
    (t : SignalType) (ks : List SignalConstant)
    → In t (map type_of ks)
    → (k : SignalConstant) × (type_of k ≡ t)
In-map t [] i = absurd i
In-map t (k ∷ ks) (inl e) = (k, e)
In-map t (k ∷ ks) (inr i) = In-map t ks i

constant_of : (t : SignalType) → is_valid_type t ≡ true → (k : SignalConstant) × (type_of k ≡ t)
unfolding is_valid_type valid_signal_types
constant_of t h = In-map t constants (has→In t (map type_of constants) h)

module _ ⦃tx : Text⦄ where
  not_blank : (s : Bytes) → (is_blank s ≡ false) ↔ (tx.trim_space s ≢ [])
  not_blank s = ground (arith, bytes_eq_iff (tx.trim_space s) [])

module _ {F : Type 0} ⦃fl : Float64 F⦄ ⦃tx : Text⦄ where
  -- a signal as its documentation describes it
  pub record IsNormalized (s : Signal F) : Type 0 where
    pub kind : (k : SignalConstant) × (type_of k ≡ s.type)
    pub source_given : tx.trim_space s.source ≢ []
    pub key_given : tx.trim_space s.key ≢ []
    pub at_least_zero : fl.of_ℕ 0 ≼ s.confidence
    pub at_most_one : s.confidence ≼ fl.of_ℕ 1

  -- For an ordered float arithmetic in which no number from 0 to 1 is infinite: Signal.Validate
  -- accepts exactly the signals whose type is one of the constants of SignalType, whose source and
  -- key are not empty after strings.TrimSpace, and whose confidence c satisfies 0 <= c and c <= 1.
  pub validate_signal-IsNormalized :
      (laws : IsOrdered F)
      (finite_between : (x : F) → fl.of_ℕ 0 ≼ x → x ≼ fl.of_ℕ 1 → fl.is_inf x ≡ false)
      (s : Signal F)
      → (validate_signal s ≡ none) ↔ IsNormalized s
  validate_signal-IsNormalized laws finite_between s =
      let zero_number = laws.of_ℕ_number 0 (omega arith) in
      let one_number = laws.of_ℕ_number 1 (omega arith) in
      let c = s.confidence in
      (
        (λ h.
            let v = (validate_signal-IsValidSignal s).0 h in
            record {
              kind = constant_of s.type v.type_valid;
              source_given = (not_blank s.source).0 v.source_present;
              key_given = (not_blank s.key).0 v.key_present;
              at_least_zero =
                  ground
                    (arith, laws.lt-eq-not-le c (fl.of_ℕ 0) v.number zero_number, v.nonnegative);
              at_most_one =
                  ground
                    (arith, laws.lt-eq-not-le (fl.of_ℕ 1) c one_number v.number, v.at_most_one);
            }),
        (λ v.
            let number = (laws.le_number (fl.of_ℕ 0) c v.at_least_zero).1 in
            let (k, e) = v.kind in
            (validate_signal-IsValidSignal s).1 (record {
              type_valid = subst (λ t. is_valid_type t ≡ true) e (type_of-valid k);
              source_present = (not_blank s.source).1 v.source_given;
              key_present = (not_blank s.key).1 v.key_given;
              number = number;
              finite = finite_between c v.at_least_zero v.at_most_one;
              nonnegative =
                  ground
                    (arith, laws.lt-eq-not-le c (fl.of_ℕ 0) number zero_number, v.at_least_zero);
              at_most_one =
                  ground (arith, laws.lt-eq-not-le (fl.of_ℕ 1) c one_number number, v.at_most_one);
            })),
      )
