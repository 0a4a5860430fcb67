-- ===== src/Scanner/Coverage/Walk.antt =====
-- evalRule of internal/scanner/scanner.go without its memo table and its set of rules being visited.
use hemera.Base.{
  ℕ, zero, suc, ◌≡◌, refl, sym, ◌∙◌, ap, subst, inl, inr, Bytes, bytes_eq, bytes_eq→eq, has, has→In,
  Option, some, none, List, [], ◌∷◌, Table, lookup, put, lookup-put, In, Within, Within-mono,
  Bool-cases, Option-cases, arith,
}
use mathlib.Core.Option.{some-injective}
use hemera.Scanner.Coverage.{
  RuleCoverage, Dependencies, add_dependency, eval_all, conclude, visited_again, eval_rule,
}

-- The loop over the required rules, from their coverage.
abbrev pub collect : (Bytes → RuleCoverage) → List Bytes → Dependencies → Dependencies
collect cover [] deps = deps
collect cover (d ∷ ds) deps = collect cover ds (add_dependency (cover d) deps)

collect_congr :
    (f g : Bytes → RuleCoverage) (ds : List Bytes) (deps : Dependencies)
    → ((d : Bytes) → In d ds → f d ≡ g d)
    → collect f ds deps ≡ collect g ds deps
collect_congr f g [] deps h = refl
collect_congr f g (d ∷ ds) deps h =
    ap (λ s. collect f ds (add_dependency s deps)) (h d (inl refl))
    ∙ collect_congr f g ds (add_dependency (g d) deps) (λ e i. h e (inr i))

module _ (requires : Bytes → List Bytes) where
  -- A rule that another one requires, or that one of those requires.
  pub data Below : Bytes → Bytes → Type 0 where
    directly : {v d : Bytes} → In d (requires v) → Below v d
    through : {v x d : Bytes} → In x (requires v) → Below x d → Below v d

  Below-next : {v x d : Bytes} → Below v x → In d (requires x) → Below v d
  Below-next (directly i) j = through i (directly j)
  Below-next (through i b) j = through i (Below-next b j)

  Below-Within : {v d : Bytes} (n : ℕ) → Below v d → Within requires (suc n) v → Within requires n d
  Below-Within n (directly i) h = h _ i
  Below-Within zero (through i b) h = absurd (h _ i)
  Below-Within (suc n) (through i b) h =
      Within-mono requires n (suc n) _ (omega arith) (Below-Within n b (h _ i))

  no_cycle : (n : ℕ) (id : Bytes) → Within requires n id → ¬ (Below id id)
  no_cycle zero id h b = h
  no_cycle (suc n) id h b = no_cycle n id (Below-Within n b h) b

module _ (settled : Bytes → Option RuleCoverage) (start : Bytes → Dependencies)
    (decide : Bytes → Dependencies → RuleCoverage) (requires : Bytes → List Bytes) where
  -- The coverage of a rule by recursion on its dependencies.
  unfoldable pub coverage_of : ℕ → Bytes → RuleCoverage
  coverage_of zero id = visited_again
  coverage_of (suc n) id = elim (settled id) [
    | some s ↦ s
    | none ↦ decide id (collect (coverage_of n) (requires id) (start id))
  ]

  coverage_of_stable :
      (m n : ℕ) (id : Bytes)
      → Within requires m id
      → Within requires n id
      → coverage_of m id ≡ coverage_of n id
  unfolding coverage_of
  coverage_of_stable zero n id h k = absurd h
  coverage_of_stable (suc m) zero id h k = absurd k
  coverage_of_stable (suc m) (suc n) id h k = elim (Option-cases (settled id)) [
    | inr (s, e) ↦ rw (coverage_of, e) refl
    | inl e ↦
        rw (coverage_of, e)
          (ap (decide id) (
            collect_congr (coverage_of m) (coverage_of n) (requires id) (start id)
              (λ d i. coverage_of_stable m n d (h d i) (k d i))))
  ]

  coverage_of-settled :
      (n : ℕ) (id : Bytes) (s : RuleCoverage) → settled id ≡ some s → coverage_of (suc n) id ≡ s
  unfolding coverage_of
  coverage_of-settled n id s e = rw (coverage_of, e) refl

  pub coverage_of-open :
      (n : ℕ) (id : Bytes)
      → settled id ≡ none
      → coverage_of (suc n) id ≡ decide id (collect (coverage_of n) (requires id) (start id))
  unfolding coverage_of
  coverage_of-open n id e = rw (coverage_of, e) refl

  -- The entries of the memo table are the coverage of their rules.
  abbrev pub IsMemo : Table RuleCoverage → Type 0
  IsMemo memo =
      (id : Bytes) (s : RuleCoverage) (n : ℕ)
      → lookup id memo ≡ some s
      → Within requires n id
      → coverage_of n id ≡ s

  put-IsMemo :
      (n : ℕ) (id : Bytes) (memo : Table RuleCoverage)
      → Within requires n id
      → IsMemo memo
      → IsMemo (put id (coverage_of n id) memo)
  put-IsMemo n id memo h v j s m e k = elim (Bool-cases (bytes_eq id j)) [
    | inl same ↦
        let id_is : id ≡ j = bytes_eq→eq id j same in
        coverage_of_stable m n j k (subst (Within requires n) id_is h)
        ∙ ap (coverage_of n) (sym id_is)
        ∙ some-injective _ _ (sym (lookup-put id j (coverage_of n id) memo ∙ rw same refl) ∙ e)
    | inr other ↦ v j s m (sym (lookup-put id j (coverage_of n id) memo ∙ rw other refl) ∙ e) k
  ]

  abbrev Evaluates : RuleCoverage → Option (RuleCoverage × Table RuleCoverage) → Type 0
  Evaluates s r = (memo : Table RuleCoverage) × (r ≡ some (s, memo)) × IsMemo memo

  abbrev EvaluatesAll : Dependencies → Option (Dependencies × Table RuleCoverage) → Type 0
  EvaluatesAll deps r = (memo : Table RuleCoverage) × (r ≡ some (deps, memo)) × IsMemo memo

  eval_all_lem :
      (n : ℕ) (walk : Bytes → Table RuleCoverage → Option (RuleCoverage × Table RuleCoverage))
      (ds : List Bytes) (deps : Dependencies) (memo : Table RuleCoverage)
      → ((d : Bytes) (m : Table RuleCoverage)
          → In d ds
          → IsMemo m
          → Evaluates (coverage_of n d) (walk d m))
      → IsMemo memo
      → EvaluatesAll (collect (coverage_of n) ds deps) (eval_all walk ds deps memo)
  eval_all_lem n walk [] deps memo h v = (memo, refl, v)
  eval_all_lem n walk (d ∷ ds) deps memo h v =
      let (m, e, w) = h d memo (inl refl) v in
      rw (e, eval_all)
        (eval_all_lem n walk ds (add_dependency (coverage_of n d) deps) m
          (λ d' m' i. h d' m' (inr i)) w)

  -- From a memo table with true entries, and with fuel for the longest chain of dependencies, evalRule
  -- returns the coverage of the rule, and the entries of the new table are true.
  pub eval_rule_lem :
      (fuel : ℕ) (id : Bytes) (visiting : List Bytes) (memo : Table RuleCoverage)
      → Within requires fuel id
      → ((v : Bytes) → In v visiting → Below requires v id)
      → IsMemo memo
      → Evaluates
          (coverage_of fuel id)
          (eval_rule settled start decide requires fuel id visiting memo)
  unfolding eval_rule
  eval_rule_lem zero id visiting memo h above v = absurd h
  eval_rule_lem (suc fuel) id visiting memo h above v = elim (Option-cases (lookup id memo)) [
    | inr (s, known) ↦
        rw (known, eval_rule) (memo, ap (λ x. some (x, memo)) (sym (v id s (suc fuel) known h)), v)
    | inl new ↦ elim (Bool-cases (has id visiting)) [
      | inl again ↦ absurd (no_cycle requires (suc fuel) id h (above id (has→In id visiting again)))
      | inr fresh ↦ elim (Option-cases (settled id)) [
        | inr (s, e) ↦
            let is : coverage_of (suc fuel) id ≡ s = coverage_of-settled fuel id s e in
            rw (new, eval_rule)
              (rw fresh (
                rw e (
                  put id s memo,
                  ap (λ x. some (x, put id s memo)) (sym is),
                  subst (λ x. IsMemo (put id x memo)) is (put-IsMemo (suc fuel) id memo h v),
                )))
        | inl e ↦
            let is = coverage_of-open fuel id e in
            let answer = decide id (collect (coverage_of fuel) (requires id) (start id)) in
            let (m, walked, w) =
              eval_all_lem fuel
                (λ d m. eval_rule settled start decide requires fuel d (id ∷ visiting) m)
                (requires id) (start id) memo
                (λ d m i x. eval_rule_lem fuel d (id ∷ visiting) m (h d i) (deeper d i) x) v in
            rw (new, eval_rule)
              (rw fresh (
                rw e (
                  rw (walked, conclude)
                    (
                      put id answer m,
                      ap (λ x. some (x, put id answer m)) (sym is),
                      subst (λ x. IsMemo (put id x m)) is (put-IsMemo (suc fuel) id m h w),
                    ))))
      ]
    ]
  ]
    where
      deeper :
          (d : Bytes) → In d (requires id) → (u : Bytes) → In u (id ∷ visiting) → Below requires u d
      deeper d i u (inl e) = subst (λ x. Below requires x d) e (directly i)
      deeper d i u (inr j) = Below-next requires (above u j) i
