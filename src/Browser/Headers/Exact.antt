-- ===== src/Browser/Headers/Exact.antt =====
-- What removeHopByHopHeaders and copyHeader of internal/browser/proxy.go leave in a header.
use hemera.Base.{
  delete_key, ◌≤◌, ◌≡◌, refl, sym, ◌∙◌, ap, lookup-put, bytes_eq→eq, subst, Bool-cases, inl, inr,
  Unique, In, All, Bool, true, false, ◌||◌, Bytes, bytes_eq, bytes_eq_iff, has, none, if◌then◌else◌,
  List, [], ◌∷◌, ◌++◌, map, lookup, or_zero, arith,
}
use mathlib.Core.List.{map-append, append-nil, append_assoc}
use hemera.Text.{Text}
use hemera.Browser.Headers.{
  Header, header_size, hop_by_hop, delete_each, connection_options, remove_hop_by_hop_headers,
  values, header_add, add_each, copy_header,
}

lookup-delete_key :
    (k j : Bytes) (h : Header)
    → lookup j (delete_key k h) ≡ (if bytes_eq k j then none else lookup j h)
unfolding lookup delete_key
lookup-delete_key k j [] = ground arith
lookup-delete_key k j ((i, v) ∷ h) =
    ground (arith, bytes_eq_iff i k, bytes_eq_iff i j, bytes_eq_iff k j, lookup-delete_key k j h)

header_size-delete_key : (k : Bytes) (h : Header) → header_size (delete_key k h) ≤ header_size h
unfolding header_size delete_key
header_size-delete_key k [] = omega arith
header_size-delete_key k ((j, v) ∷ h) = ground (arith, header_size-delete_key k h)

has-append : (k : Bytes) (s t : List Bytes) → has k (s ++ t) ≡ (has k s || has k t)
unfolding has
has-append k [] t = refl
has-append k (j ∷ s) t = ground (arith, has-append k s t)

module _ (canonical : Bytes → Bytes) ⦃tx : Text⦄ where
  lookup-delete_each :
      (names : List Bytes) (k : Bytes) (h : Header)
      → lookup k (delete_each canonical names h)
        ≡ (if has k (map canonical names) then none else lookup k h)
  unfolding delete_each has
  lookup-delete_each [] k h = refl
  lookup-delete_each (name ∷ names) k h = ground (
    arith,
    lookup-delete_each names k (delete_key (canonical name) h),
    lookup-delete_key (canonical name) k h,
  )

  header_size-delete_each :
      (names : List Bytes) (h : Header)
      → header_size (delete_each canonical names h) ≤ header_size h
  unfolding delete_each
  header_size-delete_each [] h = omega arith
  header_size-delete_each (name ∷ names) h = ground (
    arith,
    header_size-delete_each names (delete_key (canonical name) h),
    header_size-delete_key (canonical name) h,
  )

  lookup-delete_each_twice :
      (first second : List Bytes) (k : Bytes) (h : Header)
      → lookup k (delete_each canonical second (delete_each canonical first h))
        ≡ (if has k (map canonical (first ++ second)) then none else lookup k h)
  lookup-delete_each_twice first second k h = ground (
    arith,
    map-append canonical first second,
    has-append k (map canonical first) (map canonical second),
    lookup-delete_each second k (delete_each canonical first h),
    lookup-delete_each first k h,
  )

  -- Whatever CanonicalHeaderKey does to names: in what removeHopByHopHeaders leaves of a header, a
  -- key is absent if it is the canonical form of an option that the first value of the Connection
  -- field lists, or of one of the nine fixed names, and every other key has the values that it had;
  -- and headerSize has not grown.
  pub remove_hop_by_hop_headers-exact :
      (h : Header) (k : Bytes)
      → (lookup k (remove_hop_by_hop_headers canonical h) ≡ (
          if has k (map canonical (connection_options canonical h ++ hop_by_hop))
          then none
          else lookup k h))
        × (header_size (remove_hop_by_hop_headers canonical h) ≤ header_size h)
  unfolding remove_hop_by_hop_headers
  remove_hop_by_hop_headers-exact h k =
      let options = connection_options canonical h in
      (
        lookup-delete_each_twice options hop_by_hop k h,
        ground (
          arith,
          header_size-delete_each hop_by_hop (delete_each canonical options h),
          header_size-delete_each options h,
        ),
      )

lookup_absent : (k : Bytes) (h : Header) → ¬ (In k (map (λ e. e.0) h)) → lookup k h ≡ none
unfolding lookup
lookup_absent k [] n = refl
lookup_absent k ((j, v) ∷ h) n = elim (Bool-cases (bytes_eq j k)) [
  | inl e ↦ absurd (n (inl (bytes_eq→eq j k e)))
  | inr e ↦ rw e (lookup_absent k h (λ i. n (inr i)))
]

module _ (canonical : Bytes → Bytes) where
  values-header_add :
      (name v k : Bytes) (h : Header)
      → values k (header_add canonical name v h)
        ≡ (values k h ++ (if bytes_eq (canonical name) k then v ∷ [] else []))
  unfolding header_add
  values-header_add name v k h = elim (Bool-cases (bytes_eq (canonical name) k)) [
    | inl e ↦
        rw (lookup-put (canonical name) k (values (canonical name) h ++ (v ∷ [])) h, e)
          (ap (λ x. values x h ++ (v ∷ [])) (bytes_eq→eq (canonical name) k e))
    | inr e ↦
        rw (lookup-put (canonical name) k (values (canonical name) h ++ (v ∷ [])) h, e)
          (sym (append-nil (values k h)))
  ]

  values-add_each :
      (name : Bytes) (vs : List Bytes) (k : Bytes) (h : Header)
      → values k (add_each canonical name vs h)
        ≡ (values k h ++ (if bytes_eq (canonical name) k then vs else []))
  unfolding add_each
  values-add_each name [] k h = elim (Bool-cases (bytes_eq (canonical name) k)) [
    | inl e ↦ rw e (sym (append-nil (values k h)))
    | inr e ↦ rw e (sym (append-nil (values k h)))
  ]
  values-add_each name (v ∷ vs) k h =
      values-add_each name vs k (header_add canonical name v h)
      ∙ ap (λ x. x ++ (if bytes_eq (canonical name) k then vs else []))
          (values-header_add name v k h)
      ∙ append_assoc (values k h) (if bytes_eq (canonical name) k then v ∷ [] else [])
          (if bytes_eq (canonical name) k then vs else [])
      ∙ ap (λ x. values k h ++ x) (joined (bytes_eq (canonical name) k))
    where
      joined :
          (b : Bool)
          → ((if b then v ∷ [] else []) ++ (if b then vs else [])) ≡ (if b then v ∷ vs else [])
      joined true = refl
      joined false = refl

  -- If the names of the source header are canonical and distinct, then after copyHeader each key of
  -- the destination has the values that it had, followed by those of the source, in their order.
  pub copy_header_lem :
      (destination source : Header) (k : Bytes)
      → All (λ e. canonical e.0 ≡ e.0) source
      → Unique (map (λ e. e.0) source)
      → values k (copy_header canonical destination source)
        ≡ (values k destination ++ values k source)
  unfolding copy_header lookup
  copy_header_lem destination [] k c u = sym (append-nil (values k destination))
  copy_header_lem destination ((name, vs) ∷ source) k (same, c) (new, u) =
      copy_header_lem (add_each canonical name vs destination) source k c u
      ∙ ap (λ x. x ++ values k source) (values-add_each name vs k destination)
      ∙ append_assoc (values k destination) (if bytes_eq (canonical name) k then vs else [])
          (values k source)
      ∙ ap (λ x. values k destination ++ x)
          (elim (Bool-cases (bytes_eq name k)) [
            | inl e ↦ rw same (
                rw e (
                  ap (λ x. vs ++ or_zero [] x)
                    (lookup_absent k source
                      (subst (λ x. ¬ (In x (map (λ e. e.0) source))) (bytes_eq→eq name k e) new))
                  ∙ append-nil vs))
            | inr e ↦ rw same (rw e refl)
          ])
