-- ===== src/Scanner/Declared.antt =====
-- The capabilities that New of internal/scanner/scanner.go accepts of one analyzer: the loop over them, and
-- the production contract.
use hemera.Base.{
  bytes_eq_iff, false, ℕ, suc, ◌≡◌, refl, ap, ap₂, subst, ◌⊎◌, inl, inr, true, Bytes, bytes_eq,
  bytes_eq→eq, Option, some, none, ok, ◌>>=◌, >>=-eq-ok, ok_injective, List, [], ◌∷◌, length, ◌==◌,
  In, Bool-cases, arith,
}
use hemera.Model.{SignalType, is_valid_type}
use hemera.Sorted.{sort_strings, repeats, drop_repeats, deduplicate_sorted}
use hemera.Sorted.Order.{IsAscending}
use hemera.Sorted.Distinct.{deduplicate_sorted-IsAscending}
use hemera.Analysis.{Capability, supported_signal_types}
use hemera.Rules.Capabilities.Consistent.{declares}
use hemera.Scanner.{declare_capabilities, same_strings, contract_error}

pub declare_capabilities-In :
    (source : Bytes) (i : ℕ) (last : Option SignalType) (ts : List SignalType)
    (ds : List Capability) (t : SignalType)
    → declare_capabilities source i last ts ≡ ok ds
    → In t ts
    → In (declares source t) ds
unfolding declare_capabilities
declare_capabilities-In source i last [] ds t h j = absurd j
declare_capabilities-In source i last (u ∷ ts) ds t h j =
    let kept = declare_capabilities source (suc i) (some u) ts in
    let h' : (kept >>= λ rest. ok (declares source u ∷ rest)) ≡ ok ds = ground arith in
    let (rest, e, e') = >>=-eq-ok kept _ h' in
    subst (In (declares source t)) (ok_injective e') (elim j [
      | inl same ↦ inl (ap (declares source) same)
      | inr k ↦ inr (declare_capabilities-In source (suc i) (some u) ts rest t e k)
    ])

pub declare_capabilities-valid :
    (source : Bytes) (i : ℕ) (last : Option SignalType) (ts : List SignalType)
    (ds : List Capability) (t : SignalType)
    → declare_capabilities source i last ts ≡ ok ds
    → In t ts
    → is_valid_type t ≡ true
unfolding declare_capabilities
declare_capabilities-valid source i last [] ds t h j = absurd j
declare_capabilities-valid source i last (u ∷ ts) ds t h j =
    let kept = declare_capabilities source (suc i) (some u) ts in
    let valid : is_valid_type u ≡ true = ground arith in
    let h' : (kept >>= λ rest. ok (declares source u ∷ rest)) ≡ ok ds = ground arith in
    let (rest, e, _) = >>=-eq-ok kept _ h' in
    elim j [
      | inl same ↦ subst (λ x. is_valid_type x ≡ true) same valid
      | inr k ↦ declare_capabilities-valid source (suc i) (some u) ts rest t e k
    ]

declare_capabilities-drop_repeats :
    (source : Bytes) (i : ℕ) (last : Option SignalType) (ts : List SignalType)
    (ds : List Capability)
    → declare_capabilities source i last ts ≡ ok ds
    → drop_repeats last ts ≡ ts
unfolding declare_capabilities drop_repeats
declare_capabilities-drop_repeats source i last [] ds h = refl
declare_capabilities-drop_repeats source i last (u ∷ ts) ds h =
    let kept = declare_capabilities source (suc i) (some u) ts in
    let h' : (kept >>= λ rest. ok (declares source u ∷ rest)) ≡ ok ds = ground arith in
    let (rest, e, _) = >>=-eq-ok kept _ h' in
    let is_new : repeats last u ≡ false = fresh last h in
    rw is_new
      (ap (λ x. u ∷ x) (declare_capabilities-drop_repeats source (suc i) (some u) ts rest e))
  where
    fresh :
        (last : Option SignalType)
        → declare_capabilities source i last (u ∷ ts) ≡ ok ds
        → repeats last u ≡ false
    fresh none k = refl
    fresh (some l) k = ground (arith, bytes_eq_iff l u, bytes_eq_iff u l)

-- Signal types that the loop accepts are strictly ascending, so none is repeated.
pub declare_capabilities-IsAscending :
    (source : Bytes) (ts : List SignalType) (ds : List Capability)
    → declare_capabilities source 0 none (sort_strings ts) ≡ ok ds
    → IsAscending (sort_strings ts)
unfolding deduplicate_sorted
declare_capabilities-IsAscending source ts ds h =
    subst IsAscending (declare_capabilities-drop_repeats source 0 none (sort_strings ts) ds h)
      (deduplicate_sorted-IsAscending ts).0

same_strings→eq : (ss ts : List Bytes) → same_strings ss ts ≡ true → ss ≡ ts
unfolding same_strings
same_strings→eq [] [] h = refl
same_strings→eq [] (t ∷ ts) h = cc
same_strings→eq (s ∷ ss) [] h = cc
same_strings→eq (s ∷ ss) (t ∷ ts) h =
    let first : bytes_eq s t ≡ true = ground arith in
    let others : same_strings ss ts ≡ true = ground arith in
    ap₂ (λ x xs. x ∷ xs) (bytes_eq→eq s t first) (same_strings→eq ss ts others)

empty_of : (xs : List SignalType) → (length xs == 0) ≡ true → xs ≡ []
empty_of [] h = refl
empty_of (x ∷ xs) h = absurd (ground arith)

-- The production contract: a source that it names advertises exactly what it lists.
abbrev pub KeepsContract : Bytes → List SignalType → Type 0
KeepsContract source advertised =
    (supported_signal_types source ≡ []) ⊎ (sort_strings advertised ≡ supported_signal_types source)

pub contract_error-KeepsContract :
    (source : Bytes) (advertised : List SignalType)
    → contract_error source (sort_strings advertised) ≡ none
    → KeepsContract source advertised
contract_error-KeepsContract source advertised h =
    elim (Bool-cases (same_strings (sort_strings advertised) (supported_signal_types source))) [
      | inl e ↦ inr (same_strings→eq _ _ e)
      | inr e ↦ inl (
          let none_listed : (length (supported_signal_types source) == 0) ≡ true = ground arith in
          empty_of (supported_signal_types source) none_listed)
    ]
