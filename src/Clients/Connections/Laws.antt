-- ===== src/Clients/Connections/Laws.antt =====
-- What a constructor does to the rest.Configs in memory: those that its caller has stay as they are.
use rbacsync.Prelude.{ℕ, suc, ◌≤◌, ◌<◌, nat_eq, ◌≡◌, refl, ◌∙◌, subst, arith}
use rbacsync.Clients.Connections.{Parts, RestConfig, Memory, assign, shallow_copy, call}

module _ (T : Parts) where
  abbrev pub Keeps : Memory T → Memory T → Type 0
  Keeps m m' = (m.next ≤ m'.next) × ((p : ℕ) → p < m.next → m'.configs p ≡ m.configs p)

  -- A function of memory answers what a description without memory says, from the same world
  -- outside, and keeps the rest.Configs.
  abbrev pub Agrees : {A : Type 0} → Memory T → A × Memory T → A × T.Outside → Type 0
  Agrees m (a, m') (b, w) = (a ≡ b) × (m'.outside ≡ w) × Keeps m m'

  pub Keeps-refl : (m : Memory T) → Keeps m m
  Keeps-refl m = (ground arith, λ p h. refl)

  pub Keeps-trans : (l m n : Memory T) → Keeps l m → Keeps m n → Keeps l n
  Keeps-trans l m n (a, f) (b, g) = (ground arith, λ p h. g p (ground arith) ∙ f p h)

  pub Agrees-trans :
      {A : Type 0} (l m : Memory T) (r : A × Memory T) (s : A × T.Outside)
      → Keeps l m
      → Agrees m r s
      → Agrees l r s
  Agrees-trans l m (a, n) s k (same, outside, kept) = (same, outside, Keeps-trans l m n k kept)

  -- A call of client-go on a pointer agrees with the call on the config that it points at.
  pub call-Agrees :
      {A : Type 0} (f : RestConfig T → T.Outside → A × T.Outside) (q : ℕ) (m n : Memory T)
      (d : RestConfig T)
      → n.configs q ≡ d
      → Keeps m n
      → Agrees m (call T f q n) (f d n.outside)
  call-Agrees f q m n d same k =
      subst (λ x. Agrees m (call T f q n) (f x n.outside)) same (refl, refl, k)

  -- One after the other.
  pub then-Agrees :
      {A B : Type 0} (f : A × Memory T → B × Memory T) (g : A × T.Outside → B × T.Outside)
      (m : Memory T) (r : A × Memory T) (s : A × T.Outside)
      → ((a : A) (n : Memory T) → Keeps m n → Agrees n (f (a, n)) (g (a, n.outside)))
      → Agrees m r s
      → Agrees m (f r) (g s)
  then-Agrees f g m (a, n) (b, w) next (same, outside, kept) =
      subst (λ x. Agrees m (f (a, n)) (g (x, w))) same
        (subst (λ v. Agrees m (f (a, n)) (g (a, v))) outside
          (Agrees-trans m n (f (a, n)) (g (a, n.outside)) kept (next a n kept)))

  -- The copy is new, and is what was copied.
  pub shallow_copy_lem :
      (p : ℕ) (m : Memory T)
      → let (q, m') = shallow_copy T p m in
        (q ≡ m.next)
        × (m'.next ≡ suc m.next)
        × (m'.configs q ≡ m.configs p)
        × (m'.outside ≡ m.outside)
        × Keeps m m'
  unfolding shallow_copy
  shallow_copy_lem p m = (refl, refl, ground arith, refl, (ground arith, λ q h. ground arith))

  -- What is assigned at an address is there, and those below stay.
  pub assign_lem :
      (p : ℕ) (c : RestConfig T) (m : Memory T) (n : ℕ)
      → n ≤ p
      → ((assign T p c m).configs p ≡ c)
        × ((q : ℕ) → q < n → (assign T p c m).configs q ≡ m.configs q)
  assign_lem p c m n h = (ground arith, λ q l. ground arith)
