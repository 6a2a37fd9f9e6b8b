-- ===== src/Prelude/Dict/Order.antt =====
-- A map with one entry for a key is read alike in whatever order its entries stand.
use mathlib.Core.List.{Perm, Permᴰ}
use mathlib.Core.Logic.{∥∥₁_elim}
use mathlib.Core.HLevel.{×_prop, Π_prop, Unit-prop}
use mathlib.Core.Option
use rbacsync.Prelude.{◌≡◌, refl, ◌∙◌, [], ◌∷◌, arith, Eq}
use rbacsync.Prelude.Dict.{Dict, lookup, UniqueKeys}

module _ {K V : Type 0} ⦃e : Eq K⦄ where
  abbrev pub Agree : Dict K V → Dict K V → Type 0
  Agree c d = UniqueKeys c × ((k : K) → lookup k c ≡ lookup k d)

  Permᴰ-Agree : {c d : Dict K V} → Permᴰ c d → UniqueKeys d → Agree c d
  unfolding lookup
  Permᴰ-Agree Permᴰ.nil u = (tt, λ k. refl)
  Permᴰ-Agree (Permᴰ.cons {a = (j, v)} {b = (i, w)} p r) (fresh, u) =
      let (uc, same) = Permᴰ-Agree r u in
      ((ground (arith, same j), uc), λ k. ground (arith, same k))
  Permᴰ-Agree (Permᴰ.swap {a = (j, v)} {b = (i, w)} p q) u = (ground arith, λ k. ground arith)
  Permᴰ-Agree (Permᴰ.trans r s) u =
      let (um, same_m) = Permᴰ-Agree s u in
      let (uc, same_c) = Permᴰ-Agree r um in (uc, λ k. same_c k ∙ same_m k)

  UniqueKeys-prop : IsSet V → (d : Dict K V) → IsProp (UniqueKeys d)
  UniqueKeys-prop sV [] = Unit-prop
  UniqueKeys-prop sV ((k, _) ∷ d) = ×_prop (Option.is_set sV _ _) (UniqueKeys-prop sV d)

  -- Any order of the entries of a map is again a map, with the same value at each key.
  pub Perm-Agree : IsSet V → {c d : Dict K V} → Perm c d → UniqueKeys d → Agree c d
  Perm-Agree sV {c} r u =
      ∥∥₁_elim r (×_prop (UniqueKeys-prop sV c) (Π_prop (λ k. Option.is_set sV _ _)))
        (λ q. Permᴰ-Agree q u)
