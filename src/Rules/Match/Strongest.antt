-- ===== src/Rules/Match/Strongest.antt =====
-- strongestMatch of internal/rules/match.go against its purpose: the signal of the highest
-- confidence among those that meet the predicate.
use hemera.Base.{
  Bool, true, false, ◌≡◌, refl, ok_injective, ◌∙◌, sym, subst, Option, some, none, Result, ok, List,
  [], ◌∷◌, map, All, In, arith, inl, inr, ◌⊎◌,
}
use mathlib.Core.Option.{some-injective}
use hemera.Float.{Float64, IsOrdered, ◌≼◌}
use hemera.Text.{Text}
use hemera.Model.{Signal}
use hemera.Rules.Schema.{Evidence}
use hemera.Rules.Pattern.{PatternError}
use hemera.Rules.Cache.{PreparedEvidence, prepare_evidence, CachedSignal}
use hemera.Rules.Cache.Transparent.{evidence_holds, IsFaithful}
use hemera.Rules.Match.{EvidenceMatch, keep_best, stronger_signal, evidence_match, strongest_match}
use hemera.Rules.Match.Plain.{strongest, plain_found, plain_match}
use hemera.Rules.Match.Refines.{strongest_match-Answers}

module _ {F : Type 0} ⦃fl : Float64 F⦄ (laws : IsOrdered F) where
  open laws use {le_refl, le_trans, le_total, lt-eq-not-le}

  abbrev pub IsNumber : Signal F → Type 0
  IsNumber s = fl.is_nan s.confidence ≡ false

  stronger-le :
      (s t : Signal F)
      → IsNumber s
      → IsNumber t
      → stronger_signal s t ≡ true
      → t.confidence ≼ s.confidence
  unfolding stronger_signal
  stronger-le s t n m h =
      ground
        (arith, lt-eq-not-le t.confidence s.confidence m n, le_total s.confidence t.confidence n m)

  not_stronger-le :
      (s t : Signal F)
      → IsNumber s
      → IsNumber t
      → stronger_signal s t ≡ false
      → s.confidence ≼ t.confidence
  unfolding stronger_signal
  not_stronger-le s t n m h =
      ground
        (arith, lt-eq-not-le t.confidence s.confidence m n, le_total s.confidence t.confidence n m)

  abbrev IsNumberBest : Option (Signal F) → Type 0
  IsNumberBest none = Unit
  IsNumberBest (some b) = IsNumber b

  -- There is a best signal, and its confidence is at least `x`.
  abbrev Over : Option (Signal F) → F → Type 0
  Over none x = ⊥
  Over (some b) x = x ≼ b.confidence

  keep_best-IsNumber :
      (held : Bool) (s : Signal F) (best : Option (Signal F))
      → IsNumber s
      → IsNumberBest best
      → IsNumberBest (keep_best held s best)
  keep_best-IsNumber false s best n m = m
  keep_best-IsNumber true s none n m = n
  keep_best-IsNumber true s (some b) n m = ground arith

  keep_best-Over :
      (held : Bool) (s : Signal F) (best : Option (Signal F)) (x : F)
      → IsNumber s
      → IsNumberBest best
      → Over best x
      → Over (keep_best held s best) x
  keep_best-Over false s best x n m h = h
  keep_best-Over true s none x n m h = absurd h
  keep_best-Over true s (some b) x n m h =
      ground (arith, stronger-le s b n m, le_trans x b.confidence s.confidence h)

  keep_best-Over_self :
      (s : Signal F) (best : Option (Signal F))
      → IsNumber s
      → IsNumberBest best
      → Over (keep_best true s best) s.confidence
  keep_best-Over_self s none n m = le_refl _ n
  keep_best-Over_self s (some b) n m =
      ground (arith, not_stronger-le s b n m, le_refl s.confidence n)

  keep_best-origin :
      (held : Bool) (s b : Signal F) (best : Option (Signal F))
      → keep_best held s best ≡ some b
      → (best ≡ some b) ⊎ ((held ≡ true) × (s ≡ b))
  keep_best-origin false s b best h = inl h
  keep_best-origin true s b none h = ground arith
  keep_best-origin true s b (some c) h = ground arith

  module _ ⦃tx : Text⦄ (p : PreparedEvidence F) where
    strongest-Over :
        (best : Option (Signal F)) (signals : List (Signal F)) (x : F)
        → IsNumberBest best
        → All IsNumber signals
        → Over best x
        → Over (strongest p best signals) x
    strongest-Over best [] x m ns h = h
    strongest-Over best (s ∷ rest) x m (n, ns) h =
        let held = evidence_holds p s in
        strongest-Over (keep_best held s best) rest x (keep_best-IsNumber held s best n m) ns
          (keep_best-Over held s best x n m h)

    strongest-Over-In :
        (best : Option (Signal F)) (signals : List (Signal F)) (t : Signal F)
        → IsNumberBest best
        → All IsNumber signals
        → In t signals
        → evidence_holds p t ≡ true
        → Over (strongest p best signals) t.confidence
    strongest-Over-In best [] t m ns i h = absurd i
    strongest-Over-In best (s ∷ rest) t m (n, ns) (inl e) h =
        let held : evidence_holds p s ≡ true = rw e h in
        strongest-Over (keep_best (evidence_holds p s) s best) rest t.confidence
          (keep_best-IsNumber (evidence_holds p s) s best n m) ns
          (subst (λ (z : Signal F). Over (keep_best (evidence_holds p s) s best) z.confidence) e
            (rw held (keep_best-Over_self s best n m)))
    strongest-Over-In best (s ∷ rest) t m (n, ns) (inr i) h =
        strongest-Over-In (keep_best (evidence_holds p s) s best) rest t
          (keep_best-IsNumber (evidence_holds p s) s best n m) ns i h

    strongest-origin :
        (best : Option (Signal F)) (signals : List (Signal F)) (b : Signal F)
        → strongest p best signals ≡ some b
        → (best ≡ some b) ⊎ (In b signals × (evidence_holds p b ≡ true))
    strongest-origin best [] b h = inl h
    strongest-origin best (s ∷ rest) b h =
        elim (strongest-origin (keep_best (evidence_holds p s) s best) rest b h) [
          | inl e ↦ elim (keep_best-origin (evidence_holds p s) s b best e) [
            | inl old ↦ inl old
            | inr (held, same) ↦ inr (inl same, rw (← same) held)
          ]
          | inr (i, held) ↦ inr (inr i, held)
        ]

    -- `m` is the evidence for `e` from a signal that meets the prepared predicate `p` and whose
    -- confidence no other such signal exceeds.
    pub record IsStrongest (e : Evidence F) (signals : List (Signal F)) (m : EvidenceMatch F)
        : Type 0 where
      pub observed : In m.signal signals
      pub meets : evidence_holds p m.signal ≡ true
      pub strongest_one :
          (s : Signal F)
          → In s signals
          → evidence_holds p s ≡ true
          → s.confidence ≼ m.signal.confidence
      pub identified : m ≡ evidence_match e m.signal

    found-IsStrongest :
        (e : Evidence F) (signals : List (Signal F)) (o : Option (Signal F)) (m : EvidenceMatch F)
        → All IsNumber signals
        → strongest p none signals ≡ o
        → plain_found e o ≡ some m
        → IsStrongest e signals m
    found-IsStrongest e signals none m ns h f = cc
    found-IsStrongest e signals (some b) m ns h f =
        let same : evidence_match e b ≡ m = some-injective _ _ f in
        subst (IsStrongest e signals) same (record {
          observed = (from_signals (strongest-origin none signals b h)).0;
          meets = (from_signals (strongest-origin none signals b h)).1;
          strongest_one = λ s i held.
              subst (λ (z : Option (Signal F)). Over z s.confidence) h
                (strongest-Over-In none signals s tt ns i held);
          identified = refl;
        })
      where
        from_signals :
            (none ≡ some b) ⊎ (In b signals × (evidence_holds p b ≡ true))
            → In b signals × (evidence_holds p b ≡ true)
        from_signals (inl x) = cc
        from_signals (inr x) = x

  -- From any faithful caches, on confidences that are numbers: evidence that strongestMatch returns
  -- comes from one of the signals that meet the prepared predicate, of the highest confidence among
  -- them.
  pub strongest_match-IsStrongest :
      ⦃tx : Text⦄ (e : Evidence F) (p : PreparedEvidence F) (cached : List (CachedSignal F))
      (m : EvidenceMatch F)
      → All IsFaithful cached
      → All IsNumber (map (λ s. s.signal) cached)
      → prepare_evidence e ≡ ok p
      → (strongest_match e cached).0 ≡ ok (some m)
      → IsStrongest p e (map (λ s. s.signal) cached) m
  unfolding plain_match
  strongest_match-IsStrongest e p cached m v ns prepared h =
      let signals = map (λ s. s.signal) cached in
      let plain = sym ((strongest_match-Answers e).answer cached v) ∙ h in
      let result : ◌≡◌ {A = Result PatternError (Option (EvidenceMatch F))}
          (ok (plain_found e (strongest p none signals))) (ok (some m)) =
        rw prepared at plain in
      found-IsStrongest p e signals (strongest p none signals) m ns refl (ok_injective result)
