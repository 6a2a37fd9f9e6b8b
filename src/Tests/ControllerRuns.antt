-- ===== src/Tests/ControllerRuns.antt =====
-- The theorems on the handlers, applied to the sample servers.
use rbacsync.Prelude.{
  String, string_eq, arith, ◌≡◌, ◌≢◌, refl, subst, Bool, true, false, Option, none, some, List, [],
  ◌∷◌, contains,
}
use rbacsync.Api.{Subject, Config}
use rbacsync.Errors.{err_unknown}
use rbacsync.Errors.Kinds.{is_not_found-other, is_unknown_memberships-sentinel}
use rbacsync.Kube.{Kube, scope_eq, namespaced, BoundRole}
use rbacsync.Kube.Server.{Server, Key, same_key}
use rbacsync.Controller.Effects.{World}
use rbacsync.Controller.Bindings.{
  namespace_of, bound_name, kind_is_valid, object_for, create_or_update,
}
use rbacsync.Controller.Bindings.Writes.{Wrote, create_or_update_lem}
use rbacsync.Controller.Bindings.Loop.{target, bound_names}
use rbacsync.Controller.Cleanup.{build_child_selector}
use rbacsync.Controller.Cleanup.Loop.{Deletes}
use rbacsync.Controller.Objects.{selected, handled, handle-foreign}
use rbacsync.Controller.Objects.Bound.{handle-keeps_unknown}
use rbacsync.Controller.Objects.Gone.{handle-unwritten}
use rbacsync.Tests.Samples.{
  wrapped, known, other, failures, failures-IsLawful, memory, memory_server, user, view,
  config_with, object_named, at, holding, one_user, clueless,
}

abbrev config : Config
config = config_with (view "g" ∷ [])

abbrev listing : List (BoundRole String)
listing = object_named "c-g-view" ∷ []

-- A server that writes, and one that does not; the lister of both shows one object.
abbrev Good : Kube failures
Good = memory false listing

abbrev good : Server failures Good
good = memory_server false listing

abbrev Bad : Kube failures
Bad = memory true listing

abbrev bad : Server failures Bad
bad = memory_server true listing

abbrev start : (Key → Option (BoundRole String)) → World failures Good Unit
start find = record { server = find; upstream = tt; effects = [] }

abbrev start_bad : (Key → Option (BoundRole String)) → World failures Bad Unit
start_bad find = record { server = find; upstream = tt; effects = [] }

abbrev there : Key → Option (BoundRole String)
there = holding (object_named "c-g-view")

abbrev ann : List Subject
ann = user "ann" ∷ []

abbrev ann_object : BoundRole String
ann_object = object_for failures Good Unit namespaced config (view "g") ann

handle-keeps_unknown_example :
    (handled failures Good good Unit namespaced config clueless (start there)).server
      (at "c-g-view")
    ≢ none
unfolding memory_server string_eq scope_eq kind_is_valid bound_name namespace_of
handle-keeps_unknown_example =
    handle-keeps_unknown failures Good good Unit namespaced config clueless (start there) [] []
      (view "g") refl refl
      (λ u. (
        known err_unknown,
        refl,
        is_not_found-other failures failures-IsLawful err_unknown (λ p. cc),
        is_unknown_memberships-sentinel failures failures-IsLawful err_unknown (λ p. cc),
      ))
      (λ p. cc)

-- Every delete that fails finds nothing to delete.
deletes :
    (refuses : Bool) (c : Config) (n : String)
    → Deletes failures (memory refuses listing) (memory_server refuses listing) Unit namespaced c n
deletes refuses c n s e h = ground arith

other_name :
    (n : String)
    → contains (bound_names namespaced config config.spec.bindings) n ≡ true
    → same_key (at "x") (target namespaced config n) ≡ false
unfolding bound_names
other_name n h = elim (string_eq.dec "x" n) [
  | no q ↦ ground arith
  | yes q ↦ absurd (
      subst (λ m. contains (bound_names namespaced config config.spec.bindings) m ≢ true) q
        (unfold bound_name kind_is_valid string_eq in λ p. cc) h)
]

-- Another object of the namespace, which the lister does not show.
handle-foreign_example :
    (handled failures Good good Unit namespaced config one_user
        (start (holding (object_named "x")))).server
      (at "x")
    ≡ some (object_named "x")
unfolding memory_server string_eq scope_eq selected build_child_selector bound_names kind_is_valid
    bound_name namespace_of
handle-foreign_example =
    handle-foreign failures Good good Unit namespaced config one_user
      (start (holding (object_named "x"))) (at "x") other_name (λ s objects h. ground arith)

handle-unwritten_example :
    (handled failures Bad bad Unit namespaced config one_user (start_bad there)).server
      (at "c-g-view")
    ≡ none
unfolding memory_server string_eq scope_eq selected build_child_selector bound_names kind_is_valid
    bound_name namespace_of create_or_update
handle-unwritten_example =
    handle-unwritten failures Bad bad Unit namespaced config one_user (start_bad there) [] []
      (view "g") (user "ann") [] (object_named "c-g-view") refl refl (λ u. refl) refl refl
      (λ s. (wrapped (other "refused") "updating object %v/%v failed", refl))
      (deletes true config "c-g-view")
      (record { front = []; back = []; shown = refl; owned = refl }) refl

create_or_update_lem_example :
    Wrote failures Good good Unit namespaced ann_object there
      (create_or_update failures Good Unit namespaced ann_object there)
create_or_update_lem_example =
    create_or_update_lem failures Good good Unit namespaced ann_object there
