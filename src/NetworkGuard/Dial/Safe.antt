-- ===== src/NetworkGuard/Dial/Safe.antt =====
-- resolve and DialContext of internal/networkguard/networkguard.go: which addresses are dialed, and
-- which connection is returned.
use hemera.Base.{
  false, ℕ, ◌+◌, true, ◌≡◌, refl, ◌∙◌, subst, Bytes, Option, some, none, ok, >>=-eq-ok,
  ok_injective, List, [], ◌∷◌, ◌++◌, All, All-append, In, inl, inr, In-append_right, arith,
  Bool-cases, Option-cases, Result-cases,
}
use hemera.NetworkGuard.Addr.{Addr, unmap}
use hemera.NetworkGuard.Policy.{allowed}
use hemera.NetworkGuard.Dial.{
  Resolver, normalize, literal, looked_up, resolve, DialError, Dialer, Dialed, dial_each, dial_host,
  dial_context,
}

abbrev IsAllowed : Addr → Type 0
IsAllowed a = allowed a ≡ true

normalize-All : (as' out : List Addr) → normalize as' ≡ ok out → All IsAllowed out
unfolding normalize
normalize-All [] out h = subst (All IsAllowed) (ok_injective h) tt
normalize-All (a ∷ as') out h = elim (Bool-cases (allowed (unmap a))) [
  | inr no_a ↦ absurd (ground (arith, no_a))
  | inl yes_a ↦ elim (Result-cases (normalize as')) [
    | inr (x, e) ↦ absurd (ground (arith, e))
    | inl (rest, e) ↦ subst (All IsAllowed) (shape rest e) (yes_a, normalize-All as' rest e)
  ]
]
  where
    shape : (rest : List Addr) → normalize as' ≡ ok rest → unmap a ∷ rest ≡ out
    shape rest e = ground (arith, e)

looked_up-All :
    (r : Resolver) (o : Option (List Addr)) (out : List Addr)
    → looked_up r o ≡ ok out
    → All IsAllowed out
looked_up-All r none out h = cc
looked_up-All r (some []) out h = cc
looked_up-All r (some (a ∷ as')) out h = normalize-All (a ∷ as') out h

-- Every address that a host resolves to is allowed.
pub resolve-All :
    (r : Resolver) (host : Bytes) (out : List Addr)
    → resolve r host ≡ ok out
    → All (λ a. allowed a ≡ true) out
unfolding resolve
resolve-All r host out h = elim (Option-cases (r.parse_addr host)) [
  | inl e ↦ looked_up-All r (r.lookup_ip host) out (rw (e, resolve) at h)
  | inr (a, e) ↦
      let h' : literal r a ≡ ok out = rw (e, resolve) at h in
      elim (Bool-cases (allowed (unmap a))) [
        | inr no_a ↦ absurd (ground (arith, no_a))
        | inl yes_a ↦
            let shape : unmap a ∷ [] ≡ out = ground (arith, yes_a) in
            subst (All IsAllowed) shape (yes_a, tt)
      ]
]

module _ {C : Type 0} (dialer : Dialer C) (P : Addr → Type 0) where
  -- What a dial shows: all that was tried satisfies `P`, and a connection is one to an address tried.
  pub record IsPinned (d : Dialed C) : Type 0 where
    pub tried_ok : All P d.tried
    pub connected :
        (c : C) → d.conn ≡ some c → (a : Addr) × In a d.tried × (dialer.connect a ≡ some c)

  unconnected :
      (tried : List Addr) (errors : List DialError)
      → All P tried
      → IsPinned (record { conn = none; tried = tried; errors = errors })
  unconnected tried errors v = record { tried_ok = v; connected = λ c e. cc }

  dial_each-IsPinned :
      (k : ℕ) (tried : List Addr) (errors : List DialError) (as' : List Addr)
      → All P tried
      → All P as'
      → IsPinned (dial_each dialer k tried errors as')
  unfolding dial_each
  dial_each-IsPinned k tried errors [] v w = unconnected tried errors v
  dial_each-IsPinned k tried errors (a ∷ as') v (p, ps) =
      let more = All-append P tried (a ∷ []) v (p, tt) in
      elim (Bool-cases (dialer.ended k)) [
        | inl e ↦ rw (e, dial_each) (unconnected tried _ v)
        | inr e ↦ elim (Option-cases (dialer.connect a)) [
          | inr (c, f) ↦
              rw (e, dial_each)
                (rw (f, dial_each)
                  (record {
                    tried_ok = more;
                    connected = λ x g. (a, In-append_right a tried (a ∷ []) (inl refl), f ∙ g);
                  }))
          | inl f ↦ elim (Bool-cases (dialer.ended (k + 1))) [
            | inl g ↦
                rw (e, dial_each)
                  (rw (f, dial_each) (rw (g, dial_each) (unconnected (tried ++ (a ∷ [])) _ more)))
            | inr g ↦
                rw (e, dial_each)
                  (rw (f, dial_each)
                    (rw (g, dial_each)
                      (dial_each-IsPinned (k + 2) (tried ++ (a ∷ []))
                        (errors ++ (DialError.refused a ∷ [])) as' more ps)))
          ]
        ]
      ]

-- Whatever the host, the resolver and the dialer do: if DialContext gets as far as dialing, every
-- address that it dials is allowed, and a connection that it returns is one that the dialer opened
-- to such an address.
pub dial_context-IsPinned :
    {C : Type 0} (r : Resolver) (dialer : Dialer C) (split : Bytes → Option Bytes) (address : Bytes)
    (d : Dialed C)
    → dial_context r dialer split address ≡ ok d
    → IsPinned dialer (λ a. allowed a ≡ true) d
unfolding dial_context
dial_context-IsPinned r dialer split address d h = elim (Option-cases (split address)) [
  | inl e ↦ absurd (ground (arith, e))
  | inr (host, e) ↦
      let h' : dial_host r dialer split (some host) ≡ ok d = rw e at h in
      let (as', f, g) = >>=-eq-ok (resolve r host) _ h' in
      subst (IsPinned dialer IsAllowed) (ok_injective g)
        (dial_each-IsPinned dialer IsAllowed 0 [] [] as' tt (resolve-All r host as' f))
]

-- the first address that the dialer connects to
abbrev pub first_connection : {C : Type 0} → (Addr → Option C) → List Addr → Option C
first_connection connect [] = none
first_connection connect (a ∷ as') = elim (connect a) [
  | some c ↦ some c
  | none ↦ first_connection connect as'
]

dial_each-first :
    {C : Type 0} (dialer : Dialer C) (k : ℕ) (tried : List Addr) (errors : List DialError)
    (as' : List Addr)
    → ((j : ℕ) → dialer.ended j ≡ false)
    → (dial_each dialer k tried errors as').conn ≡ first_connection dialer.connect as'
unfolding dial_each
dial_each-first dialer k tried errors [] h = refl
dial_each-first dialer k tried errors (a ∷ as') h =
    rw (h k, dial_each)
      (elim (Option-cases (dialer.connect a)) [
        | inr (c, f) ↦ rw (f, dial_each) (rw (f, first_connection) refl)
        | inl f ↦
            rw (f, dial_each)
              (rw (h (k + 1), dial_each)
                (rw (f, first_connection)
                  (dial_each-first dialer (k + 2) (tried ++ (a ∷ []))
                    (errors ++ (DialError.refused a ∷ [])) as' h)))
      ])

-- If the context never ends and the host resolves, DialContext connects to the first resolved
-- address that the dialer can connect to, and has no connection only if there is none.
pub dial_context-first :
    {C : Type 0} (r : Resolver) (dialer : Dialer C) (split : Bytes → Option Bytes)
    (address host : Bytes) (addresses : List Addr)
    → ((j : ℕ) → dialer.ended j ≡ false)
    → split address ≡ some host
    → resolve r host ≡ ok addresses
    → (d : Dialed C) × (dial_context r dialer split address ≡ ok d)
      × (d.conn ≡ first_connection dialer.connect addresses)
unfolding dial_context
dial_context-first r dialer split address host addresses h e f = (
  dial_each dialer 0 [] [] addresses,
  rw e (rw (f, dial_host) refl),
  dial_each-first dialer 0 [] [] addresses h,
)
