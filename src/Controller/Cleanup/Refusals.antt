-- ===== src/Controller/Cleanup/Refusals.antt =====
-- The cleanup of an object that the API server refuses to delete.
use rbacsync.Prelude.{String, string_eq, ◌≡◌, refl, ◌∙◌, false, some, List, [], ◌∷◌, arith}
use rbacsync.Api.{Config}
use rbacsync.Errors.{ErrorPackage}
use rbacsync.Kube.{Kube, Scope, scope_eq}
use rbacsync.Kube.Server.{Server}
use rbacsync.Controller.Effects.{World}
use rbacsync.Controller.Bindings.{Object, namespace_of}
use rbacsync.Controller.Bindings.Loop.{target}
use rbacsync.Controller.Cleanup.{clean_all}
use rbacsync.Controller.Cleanup.Loop.{Cleaned, left, refused, gone, clean_one_lem}

module _ (P : ErrorPackage) (K : Kube P) (S : Server P K) (U : Type 0) (sc : Scope)
    (config : Config) where
  -- The API server refuses to delete the object of the name, whether there is one or not.
  abbrev pub Refuses : String → Type 0
  Refuses n =
      (s : K.State)
      → (e : P.Error) × ((K.delete sc (namespace_of sc config) n s).0 ≡ some e)
        × (K.is_not_found e ≡ false)

  one-refused :
      {active : List String} {object : Object P K U sc} {s t : K.State}
      → Cleaned P K S U sc config active object s t
      → (n : String) → Refuses n
      → S.get (target sc config n) t ≡ S.get (target sc config n) s
  one-refused (left why same) n r = same _
  one-refused (refused e failed other same) n r = same _
  one-refused {object = x} {s = s} (gone why owned idle rest) n r =
      let (e, failed, there) = r s in ground (arith, rest (target sc config n), why e)

  -- The cleanup leaves it as it is.
  pub clean_all-refused :
      (active : List String) (objects : List (Object P K U sc)) (w : World P K U) (n : String)
      → Refuses n
      → S.get (target sc config n) (clean_all P K U sc config active objects w).server
        ≡ S.get (target sc config n) w.server
  unfolding clean_all
  clean_all-refused active [] w n r = refl
  clean_all-refused active (object ∷ objects) w n r =
      clean_all-refused active objects _ n r
      ∙ one-refused (clean_one_lem P K S U sc config active object w) n r
