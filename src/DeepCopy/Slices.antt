-- ===== src/DeepCopy/Slices.antt =====
-- How copies compose: what a copying function may do to the heap, and the loop over an array.
use Prim.Native.Nat.{◌≤◌}
use mathlib.Core.List.{map}
use rbacsync.Prelude.{ℕ, ap₂, ◌≡◌, refl, ◌∙◌, ◌∷◌, List, [], arith}
use rbacsync.DeepCopy.{Embedded, Heap, copy_each}
use rbacsync.DeepCopy.Views.{All, Agree}

module _ (E : Embedded) where
  pub Agree-refl : {low high : ℕ} (h : Heap E) → Agree E low high h h
  Agree-refl h = record {
    subjects = λ p l u. refl;
    bindings = λ p l u. refl;
    memberships = λ p l u. refl;
    configs = λ p l u. refl;
  }

  pub Agree-narrow :
      {low high low' high' : ℕ} {g h : Heap E}
      → low ≤ low'
      → high' ≤ high
      → Agree E low high g h
      → Agree E low' high' g h
  Agree-narrow a b s = record {
    subjects = λ p l u. s.subjects p (omega arith) (omega arith);
    bindings = λ p l u. s.bindings p (omega arith) (omega arith);
    memberships = λ p l u. s.memberships p (omega arith) (omega arith);
    configs = λ p l u. s.configs p (omega arith) (omega arith);
  }

  pub Agree-trans :
      {low high : ℕ} {g h k : Heap E}
      → Agree E low high g h
      → Agree E low high h k
      → Agree E low high g k
  Agree-trans s t = record {
    subjects = λ p l u. t.subjects p l u ∙ s.subjects p l u;
    bindings = λ p l u. t.bindings p l u ∙ s.bindings p l u;
    memberships = λ p l u. t.memberships p l u ∙ s.memberships p l u;
    configs = λ p l u. t.configs p l u ∙ s.configs p l u;
  }

  -- A copy takes new addresses only, leaves the old arrays alone, and reads like the value `v` in
  -- every heap that holds the new arrays, whatever became of the old ones.
  pub record Copied {A V : Type 0} (view : Heap E → A → V) (v : V) (h : Heap E) (r : A × Heap E)
      : Type 0 where
    pub grows : h.next ≤ r.1.next
    pub frame : Agree E 0 h.next h r.1
    pub same : (g : Heap E) → Agree E h.next r.1.next r.1 g → view g r.0 ≡ v

  -- The values of one type that an old heap determines.
  pub record Readable {A V : Type 0} (view : Heap E → A → V) (Ok : Heap E → A → Type 0)
      : Type 0 where
    pub stable : (a : A) (h g : Heap E) → Ok h a → Agree E 0 h.next h g → view g a ≡ view h a
    pub keeps : (a : A) (h g : Heap E) → Ok h a → h.next ≤ g.next → Agree E 0 h.next h g → Ok g a

  module _ {A V : Type 0} (view : Heap E → A → V) (Ok : Heap E → A → Type 0)
      (R : Readable view Ok) where
    pub each-stable :
        (l : List A) (h g : Heap E)
        → All E (Ok h) l
        → Agree E 0 h.next h g
        → map (view g) l ≡ map (view h) l
    each-stable [] h g ok s = refl
    each-stable (a ∷ l) h g (o, ok) s = ap₂ ◌∷◌ (R.stable a h g o s) (each-stable l h g ok s)

    pub each-keeps :
        (l : List A) (h g : Heap E)
        → All E (Ok h) l
        → h.next ≤ g.next
        → Agree E 0 h.next h g
        → All E (Ok g) l
    each-keeps [] h g ok n s = tt
    each-keeps (a ∷ l) h g (o, ok) n s = (R.keeps a h g o n s, each-keeps l h g ok n s)

    pub copy_each-Copied :
        (f : A → Heap E → A × Heap E)
        → ((a : A) (h : Heap E) → Ok h a → Copied view (view h a) h (f a h))
        → (l : List A) (h : Heap E) → All E (Ok h) l
        → Copied (λ g. map (view g)) (map (view h) l) h (copy_each E f l h)
    unfolding copy_each
    copy_each-Copied f each [] h ok = record {
      grows = omega arith;
      frame = Agree-refl h;
      same = λ g s. refl;
    }
    copy_each-Copied f each (a ∷ l) h (o, ok) =
        let (b, h') = f a h in
        let first = each a h o in
        let rest = copy_each-Copied f each l h' (each-keeps l h h' ok first.grows first.frame) in
        let low = first.grows in
        let high = rest.grows in
        record {
          grows = omega arith;
          frame = Agree-trans first.frame (Agree-narrow (omega arith) low rest.frame);
          same = λ g s.
              ap₂ ◌∷◌
                (first.same g (
                  Agree-trans (Agree-narrow (omega arith) (omega arith) rest.frame)
                    (Agree-narrow (omega arith) high s)))
                (rest.same g (Agree-narrow low (omega arith) s)
                  ∙ each-stable l h h' ok first.frame);
        }
