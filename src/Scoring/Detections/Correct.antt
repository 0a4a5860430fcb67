-- ===== src/Scoring/Detections/Correct.antt =====
-- The last loop of scoreMatches, internal/scoring/scoring.go: detections and missing dependencies.
use hemera.Base.{
  Within, ℕ, Bool, true, false, ◌≡◌, refl, subst, Bytes, some, ok, List, [], ◌∷◌, if◌then◌else◌,
  Table, In, Pairs, inl, inr,
}
use hemera.Float.{Float64}
use hemera.Rules.Schema.{Rule}
use hemera.Scoring.{Detection}
use hemera.Scoring.Detections.{missing_from, detect_rules}
use hemera.Scoring.Eligibility.{eligible}
use hemera.Scoring.Eligibility.Correct.{Eligible, Decides, IsSound, eligible_lem}

module _ (passes : Bytes → Bool) (requires : Bytes → List Bytes) where
  -- `missing` are the members of `ds` that are not eligible, in order.
  pub data Missing : List Bytes → List Bytes → Type 0 where
    none_left : Missing [] []
    met :
        {d : Bytes} {ds ms : List Bytes}
        → Eligible passes requires d
        → Missing ds ms
        → Missing (d ∷ ds) ms
    missed :
        {d : Bytes} {ds ms : List Bytes}
        → ¬ (Eligible passes requires d)
        → Missing ds ms
        → Missing (d ∷ ds) (d ∷ ms)

  pub Missing-none :
      {ds ms : List Bytes}
      → Missing ds ms
      → ms ≡ []
      → (d : Bytes) → In d ds
      → Eligible passes requires d
  Missing-none none_left e d i = absurd i
  Missing-none (met h m) e d (inl same) = subst (Eligible passes requires) same h
  Missing-none (met h m) e d (inr i) = Missing-none m e d i
  Missing-none (missed h m) e d i = cc

  pub Missing-all :
      {ds ms : List Bytes}
      → Missing ds ms
      → ((d : Bytes) → In d ds → Eligible passes requires d)
      → ms ≡ []
  Missing-all none_left f = refl
  Missing-all (met h m) f = Missing-all m (λ d i. f d (inr i))
  Missing-all (missed {d = d} h m) f = absurd (h (f d (inl refl)))

  Missing-cons :
      (b : Bool) (d : Bytes) {ds ms : List Bytes}
      → Decides passes requires b d
      → Missing ds ms
      → Missing (d ∷ ds) (if b then ms else d ∷ ms)
  Missing-cons true d h m = met h m
  Missing-cons false d h m = missed h m

  -- The loop over the dependencies returns those that are not eligible.
  missing_from_lem :
      (fuel : ℕ) (ds : List Bytes) (memo : Table Bool)
      → ((d : Bytes) → In d ds → Within requires fuel d)
      → IsSound passes requires memo
      → (ms : List Bytes) × (memo' : Table Bool) × (missing_from
            (eligible passes requires fuel)
            ds
            memo
          ≡ some (ms, memo'))
        × Missing ds ms
        × IsSound passes requires memo'
  unfolding missing_from
  missing_from_lem fuel [] memo h v = ([], memo, refl, none_left, v)
  missing_from_lem fuel (d ∷ ds) memo h v =
      let (b, m₁, e, decided, v₁) = eligible_lem passes requires fuel d memo (h d (inl refl)) v in
      let (ms, m₂, f, rest, v₂) = missing_from_lem fuel ds m₁ (λ x i. h x (inr i)) v₁ in
      (
        if b then ms else d ∷ ms,
        m₂,
        rw (e, missing_from) (rw (f, missing_from) refl),
        Missing-cons b d decided rest,
        v₂,
      )

  module _ {F : Type 0} ⦃fl : Float64 F⦄
      (detection : Rule F → List Bytes → Bool → Detection F) where
    -- The detection reported for a rule: its missing dependencies are those that are not eligible,
    -- and it is detected exactly if the rule is eligible.
    pub record Reports (r : Rule F) (d : Detection F) : Type 0 where
      pub missing : List Bytes
      pub detected : Bool
      pub is_missing : Missing r.requires missing
      pub decided : Decides passes requires detected r.id
      pub reported : d ≡ detection r missing detected

    pub detect_rules_lem :
        (fuel : ℕ) (rs : List (Rule F)) (memo : Table Bool)
        → ((r : Rule F)
            → In r rs
            → Within requires fuel r.id × ((d : Bytes) → In d r.requires → Within requires fuel d))
        → IsSound passes requires memo
        → (ds : List (Detection F)) × (detect_rules
              (eligible passes requires fuel)
              detection
              rs
              memo
            ≡ ok ds)
          × Pairs Reports rs ds
    unfolding detect_rules
    detect_rules_lem fuel [] memo h v = ([], refl, tt)
    detect_rules_lem fuel (r ∷ rs) memo h v =
        let (own, deps) = h r (inl refl) in
        let (ms, m₁, e, is_missing, v₁) = missing_from_lem fuel r.requires memo deps v in
        let (b, m₂, f, decided, v₂) = eligible_lem passes requires fuel r.id m₁ own v₁ in
        let (ds, g, rest) = detect_rules_lem fuel rs m₂ (λ x i. h x (inr i)) v₂ in
        (
          detection r ms b ∷ ds,
          rw (e, detect_rules) (rw (f, detect_rules) (rw g refl)),
          (
            record {
              missing = ms;
              detected = b;
              is_missing = is_missing;
              decided = decided;
              reported = refl;
            },
            rest,
          ),
        )
