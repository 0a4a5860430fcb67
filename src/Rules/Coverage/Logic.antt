-- ===== src/Rules/Coverage/Logic.antt =====
-- Postconditions of matching computations: what a computation gives from any faithful caches of the
-- given signals.
use hemera.Base.{◌≡◌, refl, sym, ◌∙◌, subst, Result, ok, err, ok_injective, List, All, map}
use hemera.Float.{Float64}
use hemera.Text.{Text}
use hemera.Model.{Signal}
use hemera.Rules.Pattern.{PatternError}
use hemera.Rules.Cache.{CachedSignal}
use hemera.Rules.Cache.Transparent.{IsFaithful}
use hemera.Rules.Match.{Matching, ◌>>=◌, pure}
use hemera.Rules.Match.Plain.{Answers}

module _ {F : Type 0} ⦃fl : Float64 F⦄ ⦃tx : Text⦄ (signals : List (Signal F)) where
  -- Caches that stand for the signals.
  abbrev pub Caches : List (CachedSignal F) → Type 0
  Caches c = All IsFaithful c × (map (λ s. s.signal) c ≡ signals)

  -- What a result and the caches that it leaves must satisfy.
  abbrev pub Meets :
      {A : Type 0} → (A → Type 0) → Result PatternError A × List (CachedSignal F) → Type 0
  Meets P (ok a, c) = P a × Caches c
  Meets P (err e, c) = Caches c

  abbrev pub Gives : {A : Type 0} → (A → Type 0) → Matching F A → Type 0
  Gives P m = (c : List (CachedSignal F)) → Caches c → Meets P (m c)

  pub Gives-pure : {A : Type 0} (P : A → Type 0) (a : A) → P a → Gives P (pure a)
  Gives-pure P a p c v = (p, v)

  pub Gives-bind :
      {A B : Type 0} (P : A → Type 0) (Q : B → Type 0) (m : Matching F A) (k : A → Matching F B)
      → Gives P m
      → ((a : A) → P a → Gives Q (k a))
      → Gives Q (m >>= k)
  Gives-bind {A} {B} P Q m k h g c v = step (m c) (h c v)
    where
      step :
          (x : Result PatternError A × List (CachedSignal F))
          → Meets P x
          → Meets Q (◌>>=◌ (λ _. x) k c)
      step (ok a, c') (p, v') = g a p c' v'
      step (err e, c') v' = v'

  pub Gives-Answers :
      {A : Type 0} (P : A → Type 0) (plain : List (Signal F) → Result PatternError A)
      (m : Matching F A)
      → Answers plain m
      → ((a : A) → plain signals ≡ ok a → P a)
      → Gives P m
  Gives-Answers {A} P plain m w h c (v, e) =
      step (m c) (w.answer c v ∙ subst (λ s. plain (map (λ x. x.signal) c) ≡ plain s) e refl)
        (w.kept c v) (w.same c v ∙ e)
    where
      step :
          (x : Result PatternError A × List (CachedSignal F))
          → x.0 ≡ plain signals
          → All IsFaithful x.1
          → map (λ s. s.signal) x.1 ≡ signals
          → Meets P x
      step (ok a, c') r f s = (h a (sym r), (f, s))
      step (err x, c') r f s = (f, s)

  pub Meets-ok :
      {A : Type 0} (P : A → Type 0) (x : Result PatternError A × List (CachedSignal F)) (a : A)
      → Meets P x
      → x.0 ≡ ok a
      → P a
  Meets-ok P (ok b, c) a (p, v) e = subst P (ok_injective e) p
  Meets-ok P (err x, c) a v e = cc
