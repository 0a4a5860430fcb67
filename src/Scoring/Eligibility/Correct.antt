-- ===== src/Scoring/Eligibility/Correct.antt =====
-- The closure `eligible` of scoreMatches, internal/scoring/scoring.go, against its meaning without
-- a memo: a rule is eligible if it passes and all that it requires is eligible.
use mathlib.Core.Bool.{false≢true}
use hemera.Base.{
  Within, ℕ, zero, suc, Bool, true, false, ◌≡◌, refl, sym, ◌∙◌, subst, Bytes, bytes_eq, bytes_eq→eq,
  Option, some, List, [], ◌∷◌, Table, lookup, put, lookup-put, In, inl, inr, Bool-cases,
  Option-cases,
}
use mathlib.Core.Option.{some-injective}
use hemera.Scoring.Eligibility.{all_eligible, remember, eligible}

module _ (passes : Bytes → Bool) (requires : Bytes → List Bytes) where
  -- The rule passes and so does everything below it.
  pub data Eligible : Bytes → Type 0 where
    eligible_by :
        {id : Bytes}
        → passes id ≡ true
        → ((d : Bytes) → In d (requires id) → Eligible d)
        → Eligible id

  abbrev pub Decides : Bool → Bytes → Type 0
  Decides true id = Eligible id
  Decides false id = ¬ (Eligible id)

  abbrev pub IsSound : Table Bool → Type 0
  IsSound memo = (id : Bytes) (b : Bool) → lookup id memo ≡ some b → Decides b id

  abbrev AllEligible : Bool → List Bytes → Type 0
  AllEligible true ds = (d : Bytes) → In d ds → Eligible d
  AllEligible false ds = ¬ ((d : Bytes) → In d ds → Eligible d)

  pub passes_of : {id : Bytes} → Eligible id → passes id ≡ true
  passes_of (eligible_by p f) = p

  pub below_of : {id : Bytes} → Eligible id → (d : Bytes) → In d (requires id) → Eligible d
  below_of (eligible_by p f) = f

  put-IsSound :
      (id : Bytes) (b : Bool) (memo : Table Bool)
      → Decides b id
      → IsSound memo
      → IsSound (put id b memo)
  put-IsSound id b memo h v j c e = elim (Bool-cases (bytes_eq id j)) [
    | inl same ↦
        subst (λ x. Decides c x) (bytes_eq→eq id j same)
          (subst (λ x. Decides x id)
            (some-injective _ _ (sym (lookup-put id j b memo ∙ rw same refl) ∙ e)) h)
    | inr other ↦ v j c (sym (lookup-put id j b memo ∙ rw other refl) ∙ e)
  ]

  -- The walk returns, decides the rule, and leaves a sound memo.
  abbrev pub Walks : Bytes → Option (Bool × Table Bool) → Type 0
  Walks id r = (b : Bool) × (memo : Table Bool) × (r ≡ some (b, memo)) × Decides b id × IsSound memo

  abbrev WalksAll : List Bytes → Option (Bool × Table Bool) → Type 0
  WalksAll ds r =
      (b : Bool) × (memo : Table Bool) × (r ≡ some (b, memo)) × AllEligible b ds × IsSound memo

  cons_Walks :
      (walk : Bytes → Table Bool → Option (Bool × Table Bool)) (d : Bytes) (ds : List Bytes)
      (memo : Table Bool)
      → Walks d (walk d memo)
      → ((m : Table Bool) → IsSound m → WalksAll ds (all_eligible walk ds m))
      → WalksAll (d ∷ ds) (all_eligible walk (d ∷ ds) memo)
  cons_Walks walk d ds memo (false, m, e, no_d, w) more =
      (false, m, rw (e, all_eligible) refl, λ f. no_d (f d (inl refl)), w)
  cons_Walks walk d ds memo (true, m, e, yes_d, w) more =
      let (b, m', e', h, w') = more m w in (b, m', rw (e, all_eligible) e', extend b h, w')
    where
      extend : (b : Bool) → AllEligible b ds → AllEligible b (d ∷ ds)
      extend true h = λ d'. elim [ inl same ↦ subst Eligible same yes_d | inr i ↦ h d' i ]
      extend false h = λ f. h (λ d' i. f d' (inr i))

  all_eligible_lem :
      (walk : Bytes → Table Bool → Option (Bool × Table Bool)) (ds : List Bytes) (memo : Table Bool)
      → ((d : Bytes) (m : Table Bool) → In d ds → IsSound m → Walks d (walk d m))
      → IsSound memo
      → WalksAll ds (all_eligible walk ds memo)
  all_eligible_lem walk [] memo h v = (true, memo, refl, λ d i. absurd i, v)
  all_eligible_lem walk (d ∷ ds) memo h v =
      cons_Walks walk d ds memo (h d memo (inl refl) v)
        (λ m w. all_eligible_lem walk ds m (λ d' m' i. h d' m' (inr i)) w)

  remember-Walks :
      (id : Bytes) (r : Option (Bool × Table Bool))
      → passes id ≡ true
      → WalksAll (requires id) r
      → Walks id (remember id r)
  remember-Walks id r p (true, m, e, all, w) = (
    true,
    put id true m,
    rw e refl,
    eligible_by p all,
    put-IsSound id true m (eligible_by p all) w,
  )
  remember-Walks id r p (false, m, e, some_not, w) =
      let no_id : ¬ (Eligible id) = λ h. some_not (below_of h) in
      (false, put id false m, rw e refl, no_id, put-IsSound id false m no_id w)

  -- From a sound memo and with fuel for the longest chain of dependencies, the memoized walk
  -- returns; it gives true exactly if the rule and everything below it pass; and the new memo is
  -- sound.
  pub eligible_lem :
      (fuel : ℕ) (id : Bytes) (memo : Table Bool)
      → Within requires fuel id
      → IsSound memo
      → Walks id (eligible passes requires fuel id memo)
  unfolding eligible
  eligible_lem zero id memo h v = absurd h
  eligible_lem (suc fuel) id memo h v = elim (Option-cases (lookup id memo)) [
    | inl new ↦ elim (Bool-cases (passes id)) [
      | inl p ↦
          rw (new, eligible)
            (rw p (
              remember-Walks id _ p (
                all_eligible_lem (eligible passes requires fuel) (requires id) memo
                  (λ d m i w. eligible_lem fuel d m (h d i) w) v)))
      | inr fails ↦
          let no_id : ¬ (Eligible id) = λ e. false≢true (sym fails ∙ passes_of e) in
          rw (new, eligible)
            (rw fails (false, put id false memo, refl, no_id, put-IsSound id false memo no_id v))
    ]
    | inr (b, known) ↦ rw (known, eligible) (b, memo, refl, v id b known, v)
  ]
