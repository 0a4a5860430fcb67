-- ===== src/Rules/Capabilities/Consistent.antt =====
-- The two indexes of the registry of internal/rules/capability_registry.go, by signal type and by
-- source, against the declarations that it was built from.
use hemera.Base.{
  Option, some, none, ℕ, suc, ◌≡◌, refl, sym, ap, ap₂, ◌∙◌, subst, ◌↔◌, ◌⊎◌, inl, inr, true, Bytes,
  bytes_eq, bytes_eq_iff, bytes_eq→eq, has→In, In→has, ok, >>=-eq-ok, ok_injective, if◌then◌else◌,
  List, [], ◌∷◌, ◌++◌, In, In-append, In-append_left, In-append_right, Table, lookup, put,
  lookup-put, Bool-cases, arith,
}
use hemera.Text.{Text}
use hemera.Model.{SignalType}
use hemera.Analysis.{Capability}
use hemera.Sorted.{sort_strings}
use hemera.Sorted.Distinct.{In-sort_strings}
use hemera.Rules.Schema.{TextPattern, Evidence}
use hemera.Rules.Capabilities.{
  CapabilityRegistry, empty_capabilities, entries, supports, add_capability, add_capabilities,
  sort_entries, new_capability_registry, source_matches, filter_sources, constrain, capable_sources,
}

abbrev pub declares : Bytes → SignalType → Capability
declares s t = record { source = s; signal_type = t }

entries-put :
    (k j : Bytes) (v : List Bytes) (m : Table (List Bytes))
    → entries j (put k v m) ≡ (if bytes_eq k j then v else entries j m)
entries-put k j v m = ground (arith, lookup-put k j v m)

-- An appended entry adds one pair to the relation that a table of lists stands for.
In-entries-put :
    (k j a x : Bytes) (m : Table (List Bytes))
    → In a (entries j (put k (entries k m ++ (x ∷ [])) m))
      ↔ (In a (entries j m) ⊎ ((k ≡ j) × (x ≡ a)))
In-entries-put k j a x m = elim (Bool-cases (bytes_eq k j)) [
  | inl e ↦
      let same = bytes_eq→eq k j e in
      let read : entries j (put k (entries k m ++ (x ∷ [])) m) ≡ entries k m ++ (x ∷ []) =
        entries-put k j _ m ∙ rw e refl in
      rw read (
        (λ h. elim (In-append a (entries k m) (x ∷ []) h) [
          | inl i ↦ inl (subst (λ y. In a (entries y m)) same i)
          | inr i ↦ elim i [ inl p ↦ inr (same, p) | inr q ↦ absurd q ]
        ]),
        (λ h. elim h [
          | inl i ↦ In-append_left a (entries k m) _ (subst (λ y. In a (entries y m)) (sym same) i)
          | inr p ↦ In-append_right a (entries k m) _ (inl p.1)
        ]),
      )
  | inr e ↦
      let read : entries j (put k (entries k m ++ (x ∷ [])) m) ≡ entries j m =
        entries-put k j _ m ∙ rw e refl in
      rw read (
        (λ h. inl h),
        (λ h. elim h [ inl i ↦ i | inr p ↦ absurd (ground (arith, bytes_eq_iff k j, p.0, e)) ]),
      )
]

-- Both indexes stand for the relation of the declarations `seen`.
record IsIndexOf (seen : List Capability) (r : CapabilityRegistry) : Type 0 where
  typed : (s t : Bytes) → In s (entries t r.by_type) ↔ In (declares s t) seen
  sourced : (s t : Bytes) → In t (entries s r.by_source) ↔ In (declares s t) seen

In-snoc :
    {P Q : Type 0} (c d : Capability) (seen : List Capability)
    → P ↔ In d seen
    → Q ↔ (P ⊎ (c ≡ d))
    → Q ↔ In d (seen ++ (c ∷ []))
In-snoc c d seen (f, g) (f', g') = (
  (λ q. elim (f' q) [
    | inl p ↦ In-append_left d seen _ (f p)
    | inr e ↦ In-append_right d seen _ (inl e)
  ]),
  (λ i. elim (In-append d seen (c ∷ []) i) [
    | inl j ↦ g' (inl (g j))
    | inr k ↦ elim k [ inl e ↦ g' (inr e) | inr z ↦ absurd z ]
  ]),
)

add_capability-IsIndexOf :
    (seen : List Capability) (r : CapabilityRegistry) (c : Capability)
    → IsIndexOf seen r
    → IsIndexOf (seen ++ (c ∷ [])) (add_capability r c)
add_capability-IsIndexOf seen r c v = record {
  typed = λ s t.
      let (f, g) = In-entries-put c.signal_type t s c.source r.by_type in
      In-snoc c (declares s t) seen (v.typed s t) (
        (λ h. elim (f h) [ inl i ↦ inl i | inr p ↦ inr (ap₂ declares p.1 p.0) ]),
        (λ h. elim h [
          | inl i ↦ g (inl i)
          | inr e ↦ g (inr (ap (λ d. d.signal_type) e, ap (λ d. d.source) e))
        ]),
      );
  sourced = λ s t.
      let (f, g) = In-entries-put c.source s t c.signal_type r.by_source in
      In-snoc c (declares s t) seen (v.sourced s t) (
        (λ h. elim (f h) [ inl i ↦ inl i | inr p ↦ inr (ap₂ declares p.0 p.1) ]),
        (λ h. elim h [
          | inl i ↦ g (inl i)
          | inr e ↦ g (inr (ap (λ d. d.source) e, ap (λ d. d.signal_type) e))
        ]),
      );
}

repeat-IsIndexOf :
    (seen : List Capability) (r : CapabilityRegistry) (c : Capability)
    → In c seen
    → IsIndexOf seen r
    → IsIndexOf (seen ++ (c ∷ [])) r
repeat-IsIndexOf seen r c i v = record {
  typed = λ s t. In-snoc c (declares s t) seen (v.typed s t) (again s t (v.typed s t));
  sourced = λ s t. In-snoc c (declares s t) seen (v.sourced s t) (again s t (v.sourced s t));
}
  where
    again : (s t : Bytes) {P : Type 0} → P ↔ In (declares s t) seen → P ↔ (P ⊎ (c ≡ declares s t))
    again s t (f, g) =
        ((λ p. inl p), (λ h. elim h [ inl p ↦ p | inr e ↦ g (subst (λ d. In d seen) e i) ]))

module _ ⦃tx : Text⦄ where
  add_capabilities-IsIndexOf :
      (i : ℕ) (cs seen : List Capability) (r r' : CapabilityRegistry)
      → IsIndexOf seen r
      → add_capabilities i cs r ≡ ok r'
      → (s t : Bytes)
      → (In s (entries t r'.by_type) ↔ (In (declares s t) seen ⊎ In (declares s t) cs))
        × (In t (entries s r'.by_source) ↔ (In (declares s t) seen ⊎ In (declares s t) cs))
  unfolding add_capabilities
  add_capabilities-IsIndexOf i [] seen r r' v h s t =
      subst
        (λ x.
          (In s (entries t x.by_type) ↔ (In (declares s t) seen ⊎ In (declares s t) []))
          × (In t (entries s x.by_source) ↔ (In (declares s t) seen ⊎ In (declares s t) [])))
        (ok_injective h) (ends (v.typed s t), ends (v.sourced s t))
    where
      ends : {P Q : Type 0} → P ↔ Q → P ↔ (Q ⊎ ⊥)
      ends (f, g) = ((λ p. inl (f p)), (λ q. elim q [ inl x ↦ g x | inr z ↦ absurd z ]))
  add_capabilities-IsIndexOf i (c ∷ cs) seen r r' v h s t =
      let known = λ (e : supports r c.source c.signal_type ≡ true).
        (v.sourced c.source c.signal_type).0
          (has→In c.signal_type (entries c.source r.by_source) (unfold supports in e)) in
      let next = if supports r c.source c.signal_type then r else add_capability r c in
      let v' : IsIndexOf (seen ++ (c ∷ [])) next =
        elim (Bool-cases (supports r c.source c.signal_type)) [
          | inl e ↦ rw e (repeat-IsIndexOf seen r c (known e) v)
          | inr e ↦ rw e (add_capability-IsIndexOf seen r c v)
        ] in
      let rest : add_capabilities (suc i) cs next ≡ ok r' = ground arith in
      let (a, b) = add_capabilities-IsIndexOf (suc i) cs (seen ++ (c ∷ [])) next r' v' rest s t in
      (move (declares s t) a, move (declares s t) b)
    where
      move :
          {P : Type 0} (d : Capability)
          → P ↔ (In d (seen ++ (c ∷ [])) ⊎ In d cs)
          → P ↔ (In d seen ⊎ In d (c ∷ cs))
      move d (f, g) = (
        (λ p. elim (f p) [
          | inl i ↦ elim (In-append d seen (c ∷ []) i) [
            | inl j ↦ inl j
            | inr k ↦ elim k [ inl e ↦ inr (inl e) | inr z ↦ absurd z ]
          ]
          | inr j ↦ inr (inr j)
        ]),
        (λ q. elim q [
          | inl j ↦ g (inl (In-append_left d seen _ j))
          | inr k ↦ elim k [
            | inl e ↦ g (inl (In-append_right d seen _ (inl e)))
            | inr j ↦ g (inr j)
          ]
        ]),
      )

  entries-sort_entries :
      (k : Bytes) (m : Table (List Bytes)) → entries k (sort_entries m) ≡ sort_strings (entries k m)
  unfolding lookup sort_strings
  entries-sort_entries k [] = refl
  entries-sort_entries k ((j, v) ∷ m) = elim (Bool-cases (bytes_eq j k)) [
    | inl e ↦ rw e refl
    | inr e ↦ rw e (entries-sort_entries k m)
  ]

  abbrev pub Allows : Option TextPattern → Bytes → Type 0
  Allows none s = Unit
  Allows (some p) s = source_matches p s ≡ true

  In-filter_sources :
      (p : TextPattern) (s : Bytes) (ss : List Bytes)
      → In s (filter_sources p ss) ↔ (In s ss × (source_matches p s ≡ true))
  In-filter_sources p s [] = ((λ h. absurd h), (λ h. absurd h.0))
  In-filter_sources p s (t ∷ ss) =
      let (f, g) = In-filter_sources p s ss in
      elim (Bool-cases (source_matches p t)) [
        | inl e ↦ rw e (
          (λ h. elim h [
            | inl same ↦ (inl same, subst (λ x. source_matches p x ≡ true) same e)
            | inr i ↦ (inr (f i).0, (f i).1)
          ]),
          (λ h. elim (h.0) [ inl same ↦ inl same | inr i ↦ inr (g (i, h.1)) ]),
        )
        | inr e ↦ rw e (
          (λ h. (inr (f h).0, (f h).1)),
          (λ h. elim (h.0) [
            | inl same ↦ cc (e, ap (source_matches p) same, h.1)
            | inr i ↦ g (i, h.1)
          ]),
        )
      ]

  In-constrain :
      (o : Option TextPattern) (s : Bytes) (ss : List Bytes)
      → In s (constrain o ss) ↔ (In s ss × Allows o s)
  In-constrain none s ss = ((λ h. (h, tt)), (λ h. h.0))
  In-constrain (some p) s ss = In-filter_sources p s ss

  empty-IsIndexOf : IsIndexOf [] empty_capabilities
  unfolding lookup
  empty-IsIndexOf = record { typed = λ s t. (λ h. h, λ h. h); sourced = λ s t. (λ h. h, λ h. h) }

  -- A registry that NewCapabilityRegistry builds supports exactly the declared pairs of a source
  -- and a signal type, and the sources that it finds capable of an evidence predicate are exactly
  -- the declared producers of its signal type that its source pattern, if it has one, matches.
  pub new_capability_registry-exact :
      {F : Type 0} (cs : List Capability) (r : CapabilityRegistry) (e : Evidence F) (s t : Bytes)
      → new_capability_registry cs ≡ ok r
      → ((supports r s t ≡ true) ↔ In (declares s t) cs)
        × (In s (capable_sources r e) ↔ (In (declares s e.type) cs × Allows e.source s))
  unfolding new_capability_registry capable_sources supports
  new_capability_registry-exact cs r e s t h =
      let (r', built, sorted) = >>=-eq-ok (add_capabilities 0 cs empty_capabilities) _ h in
      let same = ok_injective sorted in
      let index = add_capabilities-IsIndexOf 0 cs [] empty_capabilities r' empty-IsIndexOf built in
      let (f, g) = (index s t).1 in
      let (f', g') = (index s e.type).0 in
      let (f'', g'') = In-sort_strings s (entries e.type r'.by_type) in
      let (c, d) = In-constrain e.source s (entries e.type r.by_type) in
      let listed : entries e.type r.by_type ≡ sort_strings (entries e.type r'.by_type) =
        ap (λ x. entries e.type x.by_type) (sym same) ∙ entries-sort_entries e.type r'.by_type in
      let by_source : entries s r.by_source ≡ entries s r'.by_source =
        ap (λ x. entries s x.by_source) (sym same) in
      (
        (
          (λ x. right (f (subst (In t) by_source (has→In t _ x)))),
          (λ x. In→has t _ (subst (In t) (sym by_source) (g (inr x)))),
        ),
        (
          (λ x. (right (f' (f'' (subst (In s) listed (c x).0))), (c x).1)),
          (λ x. d (subst (In s) (sym listed) (g'' (g' (inr x.0))), x.1)),
        ),
      )
    where
      right : {P : Type 0} → ⊥ ⊎ P → P
      right (inl z) = absurd z
      right (inr p) = p
