-- ===== src/DeepCopy/Memberships.antt =====
-- The deep copies of slices and memberships.
use Prim.Native.Nat.{◌≤◌}
use mathlib.Core.List.{map}
use rbacsync.Prelude.{suc, nat_eq, ap, ◌≡◌, refl, ◌∙◌, List, Option, some, arith, String}
use rbacsync.Api.{Subject}
use rbacsync.DeepCopy.{
  Slice, nil, at, MembershipCell, Embedded, Heap, copy_subjects, copy_bindings, copy_each,
  membership_deep_copy_into, copy_memberships,
}
use rbacsync.DeepCopy.Views.{
  MembershipView, view_subjects, view_bindings, view_membership, view_memberships, IsSlice,
  IsMembership, HasMemberships, Agree,
}
use rbacsync.DeepCopy.Slices.{Agree-refl, Copied, Readable, each-keeps, copy_each-Copied}

module _ (E : Embedded) where
  -- The embedded structs of k8s.io copy to equal values.
  pub record CopiesEmbedded : Type 0 where
    pub object_meta : (m : E.ObjectMeta) → E.copy_object_meta m ≡ m
    pub list_meta : (m : E.ListMeta) → E.copy_list_meta m ≡ m

  pub subjects-stable :
      (s : Slice) (h g : Heap E)
      → IsSlice E h s
      → Agree E 0 h.next h g
      → view_subjects E g s ≡ view_subjects E h s
  subjects-stable nil h g ok s = refl
  subjects-stable (at p) h g ok s = ap some (s.subjects p (omega arith) ok)

  pub bindings-stable :
      (s : Slice) (h g : Heap E)
      → IsSlice E h s
      → Agree E 0 h.next h g
      → view_bindings E g s ≡ view_bindings E h s
  bindings-stable nil h g ok s = refl
  bindings-stable (at p) h g ok s = ap some (s.bindings p (omega arith) ok)

  pub IsSlice-keeps : (s : Slice) (h g : Heap E) → IsSlice E h s → h.next ≤ g.next → IsSlice E g s
  IsSlice-keeps nil h g ok n = tt
  IsSlice-keeps (at p) h g ok n = omega arith

  copy_subjects-Copied :
      (s : Slice) (h : Heap E)
      → IsSlice E h s
      → Copied E (view_subjects E) (view_subjects E h s) h (copy_subjects E s h)
  unfolding copy_subjects
  copy_subjects-Copied nil h ok = record {
    grows = omega arith;
    frame = Agree-refl E h;
    same = λ g s. refl;
  }
  copy_subjects-Copied (at p) h ok = record {
    grows = omega arith;
    frame = record {
      subjects = λ q l u. ground arith;
      bindings = λ q l u. refl;
      memberships = λ q l u. refl;
      configs = λ q l u. refl;
    };
    same = λ g s. ground (arith, s.subjects h.next (omega arith) (omega arith));
  }

  pub copy_bindings-Copied :
      (s : Slice) (h : Heap E)
      → IsSlice E h s
      → Copied E (view_bindings E) (view_bindings E h s) h (copy_bindings E s h)
  unfolding copy_bindings
  copy_bindings-Copied nil h ok = record {
    grows = omega arith;
    frame = Agree-refl E h;
    same = λ g s. refl;
  }
  copy_bindings-Copied (at p) h ok = record {
    grows = omega arith;
    frame = record {
      subjects = λ q l u. refl;
      bindings = λ q l u. ground arith;
      memberships = λ q l u. refl;
      configs = λ q l u. refl;
    };
    same = λ g s. ground (arith, s.bindings h.next (omega arith) (omega arith));
  }

  membership_view : (group : String) → Option (List Subject) → MembershipView
  membership_view group subjects = record { group = group; subjects = subjects }

  pub IsMembership-Readable : Readable E (view_membership E) (IsMembership E)
  unfolding membership_view
  IsMembership-Readable = record {
    stable = λ m h g ok s. ap (membership_view m.group) (subjects-stable m.subjects h g ok s);
    keeps = λ m h g ok n s. IsSlice-keeps m.subjects h g ok n;
  }

  membership-Copied :
      (m : MembershipCell) (h : Heap E)
      → IsMembership E h m
      → Copied E (view_membership E) (view_membership E h m) h (membership_deep_copy_into E m h)
  unfolding membership_deep_copy_into membership_view
  membership-Copied m h ok =
      let c = copy_subjects-Copied m.subjects h ok in
      record {
        grows = c.grows;
        frame = c.frame;
        same = λ g s. ap (membership_view m.group) (c.same g s);
      }

  -- The heap in which the address of the new array is taken.
  abbrev pub reserved : Heap E → Heap E
  reserved h = record h { next = suc h.next }

  pub reserved-Agree : (h : Heap E) → Agree E 0 h.next h (reserved h)
  reserved-Agree h = record {
    subjects = λ p l u. refl;
    bindings = λ p l u. refl;
    memberships = λ p l u. refl;
    configs = λ p l u. refl;
  }

  pub copy_memberships-Copied :
      (s : Slice) (h : Heap E)
      → HasMemberships E h s
      → Copied E (view_memberships E) (view_memberships E h s) h (copy_memberships E s h)
  unfolding copy_memberships
  copy_memberships-Copied nil h ok = record {
    grows = omega arith;
    frame = Agree-refl E h;
    same = λ g s. refl;
  }
  copy_memberships-Copied (at p) h (made, ok) =
      let old = h.memberships p in
      let (copies, h') = copy_each E (membership_deep_copy_into E) old (reserved h) in
      let loop =
        copy_each-Copied E (view_membership E) (IsMembership E) IsMembership-Readable
          (membership_deep_copy_into E) membership-Copied old (reserved h)
          (each-keeps E (view_membership E) (IsMembership E) IsMembership-Readable old h
            (reserved h) ok (omega arith) (reserved-Agree h)) in
      let more = loop.grows in
      let kept = loop.frame in
      record {
        grows = omega arith;
        frame = record {
          subjects = λ q l u. kept.subjects q l (omega arith);
          bindings = λ q l u. kept.bindings q l (omega arith);
          memberships = λ q l u. ground (arith, kept.memberships q l (omega arith));
          configs = λ q l u. kept.configs q l (omega arith);
        };
        same = λ g s. ap some (
            ap (map (view_membership E g))
              (ground (arith, s.memberships h.next (omega arith) (omega arith)))
            ∙ loop.same g (record {
              subjects = λ q l u. s.subjects q (omega arith) u;
              bindings = λ q l u. s.bindings q (omega arith) u;
              memberships = λ q l u. ground (arith, s.memberships q (omega arith) u);
              configs = λ q l u. s.configs q (omega arith) u;
            }));
      }
