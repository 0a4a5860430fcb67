-- ===== src/Rules/Validate/Graph/Acyclic.antt =====
-- validateDependencyGraph of internal/rules/schema.go against chains of dependencies: what a walk
-- leaves in the table of states, and how much fuel it takes.
use hemera.Base.{
  Within, Within-mono, ℕ, zero, suc, ◌≤◌, ◌<◌, Bool, true, false, ◌≡◌, ◌≢◌, refl, sym, ◌∙◌, ap,
  subst, Bytes, bytes_eq, bytes_eq→eq, bytes_eq_iff, Option, some, none, Result, ok, err,
  ok_injective, List, [], ◌∷◌, Table, lookup, put, lookup-put, In, length, inl, inr, ◌⊎◌,
  Bool-cases, Option-cases, Result-cases, if◌then◌else◌, arith,
}
use hemera.Rules.Validate.{SchemaError, no_fuel}
use hemera.Rules.Validate.Graph.{Visit, visiting, visited, visit, visit_all}

-- How many members of a list pass a test.
abbrev count : (Bytes → Bool) → List Bytes → ℕ
count p [] = 0
count p (x ∷ xs) = if p x then suc (count p xs) else count p xs

count-le-length : (p : Bytes → Bool) (xs : List Bytes) → count p xs ≤ length xs
count-le-length p [] = omega arith
count-le-length p (x ∷ xs) = ground (arith, count-le-length p xs)

count_mono :
    (p q : Bytes → Bool) (xs : List Bytes)
    → ((x : Bytes) → p x ≡ true → q x ≡ true)
    → count p xs ≤ count q xs
count_mono p q [] h = omega arith
count_mono p q (x ∷ xs) h = ground (arith, count_mono p q xs h, h x)

count_strict :
    (p q : Bytes → Bool) (xs : List Bytes) (y : Bytes)
    → ((x : Bytes) → p x ≡ true → q x ≡ true)
    → In y xs
    → p y ≡ false
    → q y ≡ true
    → suc (count p xs) ≤ count q xs
count_strict p q [] y h i a b = absurd i
count_strict p q (x ∷ xs) y h (inl e) a b =
    let a' : p x ≡ false = ap p e ∙ a in
    let b' : q x ≡ true = ap q e ∙ b in rw (a', b') (ground (arith, count_mono p q xs h))
count_strict p q (x ∷ xs) y h (inr i) a b = ground (arith, count_strict p q xs y h i a b, h x)

abbrev marks_visited : Option Visit → Bool
marks_visited (some visited) = true
marks_visited (some visiting) = false
marks_visited none = false

abbrev is_visited : Table Visit → Bytes → Bool
is_visited s id = marks_visited (lookup id s)

abbrev marks_new : Option Visit → Bool
marks_new none = true
marks_new (some _) = false

abbrev is_new : Table Visit → Bytes → Bool
is_new s id = marks_new (lookup id s)

-- What a successful part of the walk does to the table: entries are kept, and only new rules are
-- entered, as visited.
record Extends (s t : Table Visit) : Type 0 where
  keeps : (id : Bytes) (v : Visit) → lookup id s ≡ some v → lookup id t ≡ some v
  enters : (id : Bytes) → lookup id s ≡ none → (lookup id t ≡ none) ⊎ (lookup id t ≡ some visited)

Extends-refl : (s : Table Visit) → Extends s s
Extends-refl s = record { keeps = λ id v e. e; enters = λ id e. inl e }

Extends-trans : {s t u : Table Visit} → Extends s t → Extends t u → Extends s u
Extends-trans f g = record {
  keeps = λ id v e. g.keeps id v (f.keeps id v e);
  enters = λ id e. elim (f.enters id e) [
    | inl new ↦ g.enters id new
    | inr old ↦ inr (g.keeps id visited old)
  ];
}

-- Entering a rule, walking below it and marking it as visited.
Extends-visit :
    (id : Bytes) (s t : Table Visit)
    → lookup id s ≡ none
    → Extends (put id visiting s) t
    → Extends s (put id visited t)
Extends-visit id s t new f = record {
  keeps = λ j v e. elim (Bool-cases (bytes_eq id j)) [
    | inl same ↦ cc (bytes_eq→eq id j same)
    | inr other ↦
        lookup-put id j visited t ∙ rw other (f.keeps j v (lookup-put id j visiting s ∙ rw other e))
  ];
  enters = λ j e. elim (Bool-cases (bytes_eq id j)) [
    | inl same ↦ inr (lookup-put id j visited t ∙ rw same refl)
    | inr other ↦ elim (f.enters j (lookup-put id j visiting s ∙ rw other e)) [
      | inl x ↦ inl (lookup-put id j visited t ∙ rw other x)
      | inr x ↦ inr (lookup-put id j visited t ∙ rw other x)
    ]
  ];
}

module _ (requires : Bytes → List Bytes) where
  module _ (ids : List Bytes)
      (known : (id : Bytes) → In id ids → (d : Bytes) → In d (requires id) → In d ids) where
    -- Below a visited rule, chains are no longer than the number of visited rules.
    abbrev IsSound : Table Visit → Type 0
    IsSound s =
        (id : Bytes) → lookup id s ≡ some visited → Within requires (count (is_visited s) ids) id

    record Visited (ds : List Bytes) (s t : Table Visit) : Type 0 where
      extends : Extends s t
      all_visited : (d : Bytes) → In d ds → lookup d t ≡ some visited
      sound : IsSound t

    visit_all-Visited :
        (walk : Bytes → Table Visit → Result SchemaError (Table Visit)) (ds : List Bytes)
        (s t : Table Visit)
        → ((d : Bytes) (a b : Table Visit)
            → In d ds
            → walk d a ≡ ok b
            → IsSound a
            → Visited (d ∷ []) a b)
        → visit_all walk ds s ≡ ok t
        → IsSound s
        → Visited ds s t
    unfolding visit_all
    visit_all-Visited walk [] s t h e v =
        subst (Visited [] s) (ok_injective e)
          (record { extends = Extends-refl s; all_visited = λ d i. absurd i; sound = v })
    visit_all-Visited walk (d ∷ ds) s t h e v = elim (Result-cases (walk d s)) [
      | inr (x, f) ↦ cc (rw (f, visit_all) at e)
      | inl (a, f) ↦
          let first = h d s a (inl refl) f v in
          let rest =
            visit_all-Visited walk ds a t (λ x p q i. h x p q (inr i)) (rw (f, visit_all) at e)
              first.sound in
          record {
            extends = Extends-trans first.extends rest.extends;
            all_visited = λ x. elim [
              | inl same ↦
                  rest.extends.keeps x visited
                    (subst (λ z. lookup z a ≡ some visited) same (first.all_visited d (inl refl)))
              | inr i ↦ rest.all_visited x i
            ];
            sound = rest.sound;
          }
    ]

    -- marking a rule as visited once all that it requires is
    finish :
        (id : Bytes) (s t : Table Visit)
        → In id ids
        → lookup id s ≡ none
        → Visited (requires id) (put id visiting s) t
        → Visited (id ∷ []) s (put id visited t)
    finish id s t i new below = record {
      extends = Extends-visit id s t new below.extends;
      all_visited = λ d. elim [
        | inl same ↦ subst (λ z. lookup z (put id visited t) ≡ some visited) same at_id
        | inr j ↦ absurd j
      ];
      sound = λ j e. elim (Bool-cases (bytes_eq id j)) [
        | inl same ↦
            subst (Within requires (count (is_visited (put id visited t)) ids))
              (bytes_eq→eq id j same)
              (Within-mono requires (suc (count (is_visited t) ids)) _ id more
                (λ d k. below.sound d (below.all_visited d k)))
        | inr other ↦
            Within-mono requires (count (is_visited t) ids) _ j (omega (arith, more))
              (below.sound j (sym (lookup-put id j visited t ∙ rw other refl) ∙ e))
      ];
    }
      where
        at_id : lookup id (put id visited t) ≡ some visited
        at_id = lookup-put id id visited t ∙ ground (arith, bytes_eq_iff id id)

        was_visiting : lookup id t ≡ some visiting
        was_visiting =
            below.extends.keeps id visiting
              (lookup-put id id visiting s ∙ ground (arith, bytes_eq_iff id id))

        kept : (j : Bytes) → is_visited t j ≡ true → is_visited (put id visited t) j ≡ true
        kept j h = rw (lookup-put id j visited t) (ground arith)

        more : suc (count (is_visited t) ids) ≤ count (is_visited (put id visited t)) ids
        more =
            count_strict (is_visited t) (is_visited (put id visited t)) ids id kept i
              (rw was_visiting refl) (rw at_id refl)

    start :
        (id : Bytes) (s : Table Visit)
        → lookup id s ≡ none
        → IsSound s
        → IsSound (put id visiting s)
    start id s new v j e = elim (Bool-cases (bytes_eq id j)) [
      | inl same ↦ absurd (clash same)
      | inr other ↦
          let away : lookup j (put id visiting s) ≡ lookup j s =
            lookup-put id j visiting s ∙ rw other refl in
          Within-mono requires (count (is_visited s) ids) _ j (count_mono (is_visited s) _ ids kept)
            (v j (sym away ∙ e))
    ]
      where
        clash : bytes_eq id j ≡ true → ⊥
        clash same =
            let here : lookup j (put id visiting s) ≡ some visiting =
              lookup-put id j visiting s ∙ rw same refl in
            let both : some visiting ≡ some visited = sym here ∙ e in cc

        kept : (x : Bytes) → is_visited s x ≡ true → is_visited (put id visiting s) x ≡ true
        kept x h = rw (lookup-put id x visiting s) (ground (arith, new, bytes_eq_iff id x))

    new_mono : (s t : Table Visit) → Extends s t → count (is_new t) ids ≤ count (is_new s) ids
    new_mono s t f = count_mono (is_new t) (is_new s) ids (λ x h. elim (Option-cases (lookup x s)) [
      | inl new ↦ rw new refl
      | inr (v, old) ↦ ground (arith, f.keeps x v old)
    ])

    fewer :
        (id : Bytes) (s : Table Visit)
        → In id ids
        → lookup id s ≡ none
        → suc (count (is_new (put id visiting s)) ids) ≤ count (is_new s) ids
    fewer id s i new =
        count_strict (is_new (put id visiting s)) (is_new s) ids id
          (λ x h. ground (arith, lookup-put id x visiting s, bytes_eq_iff id x, new)) i
          (rw (lookup-put id id visiting s) (ground (arith, bytes_eq_iff id id))) (rw new refl)

    visit-Visited :
        (fuel : ℕ) (id : Bytes) (s t : Table Visit)
        → In id ids
        → visit requires fuel id s ≡ ok t
        → IsSound s
        → Visited (id ∷ []) s t
    unfolding visit
    visit-Visited zero id s t i e v = cc
    visit-Visited (suc fuel) id s t i e v = elim (Option-cases (lookup id s)) [
      | inr (visiting, f) ↦ cc (rw (f, visit) at e)
      | inr (visited, f) ↦ subst (Visited (id ∷ []) s) (ok_injective (rw (f, visit) at e)) (record {
        extends = Extends-refl s;
        all_visited = λ d. elim [
          | inl same ↦ subst (λ z. lookup z s ≡ some visited) same f
          | inr j ↦ absurd j
        ];
        sound = v;
      })
      | inl new ↦
          let e' = rw (new, visit) at e in
          elim (Result-cases (visit_all (visit requires fuel) (requires id) (put id visiting s))) [
            | inr (x, f) ↦ cc (rw f at e')
            | inl (a, f) ↦ subst (Visited (id ∷ []) s) (ok_injective (rw f at e')) (
                finish id s a i new (
                  visit_all-Visited (visit requires fuel) (requires id) (put id visiting s) a
                    (λ d p q j g w. visit-Visited fuel d p q (known id i d j) g w) f
                    (start id s new v)))
          ]
    ]

    -- Walking over rules of the set with more fuel than there are new rules ends.
    visit_all-ends :
        (fuel : ℕ) (ds : List Bytes) (s : Table Visit)
        → ((d : Bytes) → In d ds → In d ids)
        → ((d : Bytes) (a : Table Visit)
            → In d ids
            → IsSound a
            → count (is_new a) ids < fuel
            → visit requires fuel d a ≢ err no_fuel)
        → IsSound s
        → count (is_new s) ids < fuel
        → visit_all (visit requires fuel) ds s ≢ err no_fuel
    unfolding visit_all
    visit_all-ends fuel [] s within h v small e = cc
    visit_all-ends fuel (d ∷ ds) s within h v small e =
        elim (Result-cases (visit requires fuel d s)) [
          | inr (x, f) ↦ h d s (within d (inl refl)) v small (f ∙ (rw (f, visit_all) at e))
          | inl (a, f) ↦
              let step = visit-Visited fuel d s a (within d (inl refl)) f v in
              visit_all-ends fuel ds a (λ x i. within x (inr i)) h step.sound
                (omega (arith, new_mono s a step.extends, small)) (rw (f, visit_all) at e)
        ]

    visit-ends :
        (fuel : ℕ) (id : Bytes) (s : Table Visit)
        → In id ids
        → IsSound s
        → count (is_new s) ids < fuel
        → visit requires fuel id s ≢ err no_fuel
    unfolding visit
    visit-ends zero id s i v small e = absurd (omega arith)
    visit-ends (suc fuel) id s i v small e = elim (Option-cases (lookup id s)) [
      | inr (visiting, f) ↦ cc (rw (f, visit) at e)
      | inr (visited, f) ↦ cc (rw (f, visit) at e)
      | inl new ↦
          let e' = rw (new, visit) at e in
          elim (Result-cases (visit_all (visit requires fuel) (requires id) (put id visiting s))) [
            | inl (a, f) ↦ cc (rw f at e')
            | inr (x, f) ↦
                visit_all-ends fuel (requires id) (put id visiting s) (known id i)
                  (λ d a j w k. visit-ends fuel d a j w k) (start id s new v)
                  (omega (arith, fewer id s i new, small)) (f ∙ (rw f at e'))
          ]
    ]

    -- If the requirements of the listed rules are listed and the walk over all of them succeeds, no
    -- chain of dependencies from one of them has more rules than the list.
    pub visit_all-Within :
        (fuel : ℕ) (t : Table Visit)
        → visit_all (visit requires fuel) ids [] ≡ ok t
        → (id : Bytes) → In id ids
        → Within requires (length ids) id
    visit_all-Within fuel t e id i =
        let done =
          visit_all-Visited (visit requires fuel) ids [] t
            (λ d p q j g w. visit-Visited fuel d p q j g w) e (λ x f. unfold lookup in cc) in
        Within-mono requires (count (is_visited t) ids) (length ids) id
          (count-le-length (is_visited t) ids) (done.sound id (done.all_visited id i))

    -- If the requirements of the listed rules are listed, then with fuel above their number the
    -- walk over all of them never runs out of fuel.
    pub visit_all_ends :
        (fuel : ℕ) → length ids < fuel → visit_all (visit requires fuel) ids [] ≢ err no_fuel
    visit_all_ends fuel h =
        visit_all-ends fuel ids [] (λ d i. i) (visit-ends fuel) (λ x f. unfold lookup in cc)
          (omega (arith, count-le-length (is_new []) ids))
