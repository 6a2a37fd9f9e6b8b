-- ===== src/Errors/Kinds.antt =====
-- How errors.Wrap and errors.Wrapf carry the tests of pkg/groups/grouper.go.
use rbacsync.Prelude.{String, ◌≡◌, ◌≢◌, refl, true, false, List, arith, ◌||◌}
use rbacsync.Errors.{
  ErrorPackage, IsLawful, Sentinel, err_not_found, err_timeout, err_canceled, err_unknown, Arg,
  is_not_found, is_unknown_memberships,
}

-- Every error for which the controller has a case of its own.
abbrev pub IsClassified : (P : ErrorPackage) → P.Error → Type 0
IsClassified P e = (is_not_found P e || is_unknown_memberships P e) ≡ true

module _ (P : ErrorPackage) where
  -- Both tests read the cause alone.
  pub same_kind :
      {d e : P.Error}
      → P.cause d ≡ P.cause e
      → (is_not_found P d ≡ is_not_found P e)
        × (is_unknown_memberships P d ≡ is_unknown_memberships P e)
  unfolding is_not_found is_unknown_memberships
  same_kind p = (rw p, rw p)

module _ (P : ErrorPackage) (L : IsLawful P) where
  pub wrap_kind :
      (e : P.Error) (message : String)
      → (is_not_found P (P.wrap e message) ≡ is_not_found P e)
        × (is_unknown_memberships P (P.wrap e message) ≡ is_unknown_memberships P e)
  wrap_kind e message = same_kind P (L.cause-wrap e message)

  pub wrapf_kind :
      (e : P.Error) (format : String) (args : List (Arg P.Error))
      → (is_not_found P (P.wrapf e format args) ≡ is_not_found P e)
        × (is_unknown_memberships P (P.wrapf e format args) ≡ is_unknown_memberships P e)
  wrapf_kind e format args = same_kind P (L.cause-wrapf e format args)

  pub is_not_found-sentinel : is_not_found P (P.sentinel err_not_found) ≡ true
  unfolding is_not_found
  is_not_found-sentinel = ground (arith, L.cause-sentinel err_not_found)

  pub is_not_found-other :
      (s : Sentinel) → s ≢ err_not_found → is_not_found P (P.sentinel s) ≡ false
  unfolding is_not_found
  is_not_found-other s h = ground (arith, L.cause-sentinel s, L.sentinel_injective s err_not_found)

  pub is_unknown_memberships-sentinel :
      (s : Sentinel) → s ≢ err_not_found → is_unknown_memberships P (P.sentinel s) ≡ true
  unfolding is_unknown_memberships
  is_unknown_memberships-sentinel err_not_found h = absurd (h refl)
  is_unknown_memberships-sentinel err_timeout h = ground (arith, L.cause-sentinel err_timeout)
  is_unknown_memberships-sentinel err_canceled h = ground (arith, L.cause-sentinel err_canceled)
  is_unknown_memberships-sentinel err_unknown h = ground (arith, L.cause-sentinel err_unknown)

  -- The four error variables fall under one of the two tests, wrapped or not.
  pub sentinel-IsClassified :
      (s : Sentinel) (format : String) (args : List (Arg P.Error))
      → IsClassified P (P.wrapf (P.sentinel s) format args)
  sentinel-IsClassified err_not_found format args =
      ground (arith, wrapf_kind (P.sentinel err_not_found) format args, is_not_found-sentinel)
  sentinel-IsClassified s format args =
      ground
        (arith, wrapf_kind (P.sentinel s) format args, is_unknown_memberships-sentinel s (λ p. cc))
