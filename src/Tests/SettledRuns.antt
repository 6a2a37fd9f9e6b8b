-- ===== src/Tests/SettledRuns.antt =====
-- The theorems on what a handler settles, applied to a server with a lister that is up to date.
use rbacsync.Prelude.{
  String, string_eq, arith, ◌≡◌, refl, Bool, true, false, not, Option, none, some, ◌==◌, List, [],
  ◌∷◌,
}
use rbacsync.Api.{Config}
use rbacsync.Kube.{Kube, scope_eq, namespaced, BoundRole}
use rbacsync.Kube.Server.{Server, Key}
use rbacsync.Errors.{ok, err, err_unknown}
use rbacsync.Groups.{Grouper, Reply}
use rbacsync.Controller.Effects.{World}
use rbacsync.Controller.Util.{new_binding}
use rbacsync.Controller.Bindings.{
  namespace_of, bound_name, kind_is_valid, object_for, bind_all, create_or_update,
}
use rbacsync.Controller.Cleanup.{build_child_selector, handle}
use rbacsync.Controller.Objects.Policy.{Policy, Heeds, open_policy}
use rbacsync.Controller.Bindings.Truth.{Adds}
use rbacsync.Controller.Cleanup.Truth.{IsGone}
use rbacsync.Controller.Objects.Told.{handle-Adds}
use rbacsync.Controller.Objects.{selected, bound, handled}
use rbacsync.Controller.Objects.Desired.{fate}
use rbacsync.Controller.Objects.Shown.{shows}
use rbacsync.Controller.Objects.Settled.{IsCalm, settle, handle-settles, handle-handle}
use rbacsync.Tests.Samples.{
  Failure, failures, known, other, wrapped, guarded_memory, guarded_server, live_memory,
  live_server, present, user, view, config_with, object_named, at, holding, one_user,
}

abbrev pub config : Config
config = config_with (view "g" ∷ [])

abbrev pub Live : Kube failures
Live = live_memory false (present ("c-g-view" ∷ "c-old-view" ∷ []))

abbrev pub live : Server failures Live
live = live_server false (present ("c-g-view" ∷ "c-old-view" ∷ []))

-- The object of a binding that the config has no more.
abbrev pub start : World failures Live Unit
start = record { server = holding (object_named "c-old-view"); upstream = tt; effects = [] }

abbrev answers : String → Reply failures Unit
answers group = ok (user "ann" ∷ [])

abbrev after : World failures Live Unit
after = handled failures Live live Unit namespaced config one_user start

-- The objects after the loop over the bindings.
abbrev pub both : List (BoundRole String)
both =
    object_for failures Live Unit namespaced config (view "g") (user "ann" ∷ [])
    ∷ object_named "c-old-view"
    ∷ []

guarded-rejects :
    (refuses : BoundRole String → Bool) (locked : String → Bool)
    (show : (Key → Option (BoundRole String)) → List (BoundRole String)) (object : BoundRole String)
    → refuses object ≡ true
    → (s : Key → Option (BoundRole String))
    → (e : Failure) × ((create_or_update failures
          (guarded_memory refuses locked show)
          Unit
          namespaced
          object
          s).0
        ≡ err e)
unfolding string_eq create_or_update
guarded-rejects refuses locked show object there s =
    (wrapped (other "refused") "updating object %v/%v failed", rw (there, create_or_update) refl)

-- The sample servers keep to a policy.
guarded-Heeds :
    (refuses : BoundRole String → Bool) (locked : String → Bool)
    (show : (Key → Option (BoundRole String)) → List (BoundRole String)) (c : Config)
    (gm : Grouper failures Unit)
    → Heeds failures
        (guarded_memory refuses locked show)
        (guarded_server refuses locked show)
        Unit
        namespaced
        c
        gm
        (record { accepts = λ object. not (refuses object); removes = λ n. not (locked n) })
unfolding create_or_update
guarded-Heeds refuses locked show c gm = record {
  writes = λ object h s. (object, ground arith);
  rejects = λ object h. guarded-rejects refuses locked show object (ground arith);
  deletes = λ n h s e g. ground arith;
  refuses = λ n h s. (known err_unknown, ground arith, refl);
}

pub live-Heeds :
    (c : Config) (gm : Grouper failures Unit)
    → Heeds failures Live live Unit namespaced c gm (open_policy failures Live)
unfolding live_server
live-Heeds c gm =
    guarded-Heeds (λ object. false) (λ n. false) (present ("c-g-view" ∷ "c-old-view" ∷ [])) c gm

start-IsCalm :
    IsCalm failures Live live Unit namespaced config one_user answers
      (open_policy failures Live)
      start
unfolding live_server string_eq scope_eq bind_all selected build_child_selector shows namespace_of
    object_for bound_name
start-IsCalm = record {
  same = λ group u. refl;
  heeds = live-Heeds config one_user;
  current = record { objects = both; listed = refl; shown = λ n. ground arith };
}

after-IsCalm :
    IsCalm failures Live live Unit namespaced config one_user answers
      (open_policy failures Live)
      after
unfolding live_server string_eq scope_eq bind_all selected build_child_selector shows namespace_of
    object_for bound_name handle
after-IsCalm = record {
  same = λ group u. refl;
  heeds = live-Heeds config one_user;
  current = record {
    objects = object_for failures Live Unit namespaced config (view "g") (user "ann" ∷ []) ∷ [];
    listed = refl;
    shown = λ n. ground arith;
  };
}

-- A server that refuses to grant a role, and to delete one object.
abbrev grants_admin : BoundRole String → Bool
grants_admin object = object.role_ref.name == "admin"

abbrev is_locked : String → Bool
is_locked n = n == "c-old-view"

abbrev Guarded : Kube failures
Guarded =
    guarded_memory grants_admin is_locked (present ("c-g-admin" ∷ "c-g-view" ∷ "c-old-view" ∷ []))

abbrev guarded : Server failures Guarded
guarded =
    guarded_server grants_admin is_locked (present ("c-g-admin" ∷ "c-g-view" ∷ "c-old-view" ∷ []))

abbrev policy : Policy failures Guarded
policy = record { accepts = λ object. not (grants_admin object); removes = λ n. not (is_locked n) }

abbrev two_roles : Config
two_roles = config_with (new_binding "g" "admin" "ClusterRole" ∷ view "g" ∷ [])

abbrev guarded_start : World failures Guarded Unit
guarded_start = record { server = holding (object_named "c-old-view"); upstream = tt; effects = [] }

guarded-IsCalm :
    IsCalm failures Guarded guarded Unit namespaced two_roles one_user answers policy guarded_start
unfolding guarded_server string_eq scope_eq bind_all selected build_child_selector shows
    namespace_of object_for bound_name create_or_update
guarded-IsCalm = record {
  same = λ group u. refl;
  heeds =
      guarded-Heeds grants_admin is_locked (present ("c-g-admin" ∷ "c-g-view" ∷ "c-old-view" ∷ []))
        two_roles one_user;
  current = record {
    objects =
        object_for failures Guarded Unit namespaced two_roles (view "g") (user "ann" ∷ [])
        ∷ object_named "c-old-view"
        ∷ [];
    listed = refl;
    shown = λ n. ground arith;
  };
}

-- The old object is unwanted, but its delete is refused.
handle-settles_example :
    ((handle failures Guarded Unit namespaced two_roles one_user guarded_start).0 ≡ none)
    × ((handled failures Guarded guarded Unit namespaced two_roles one_user guarded_start).server
          (at "c-old-view")
        ≡ some (object_named "c-old-view"))
unfolding guarded_server string_eq scope_eq fate kind_is_valid settle namespace_of bound_name
    object_for
handle-settles_example =
    handle-settles failures Guarded guarded Unit namespaced two_roles one_user answers policy
      guarded_start "c-old-view" guarded-IsCalm

handle-handle_example :
    (handled failures Live live Unit namespaced config one_user after).server (at "c-g-view")
    ≡ after.server (at "c-g-view")
unfolding live_server namespace_of
handle-handle_example =
    handle-handle failures Live live Unit namespaced config one_user answers
      (open_policy failures Live) start (at "c-g-view") start-IsCalm after-IsCalm

-- The reports of the run.
handle-Adds_example :
    Adds failures Guarded guarded Unit namespaced two_roles
      (IsGone failures Guarded guarded Unit namespaced two_roles)
      (bound failures Guarded guarded Unit namespaced two_roles one_user guarded_start).0
      guarded_start
      (handled failures Guarded guarded Unit namespaced two_roles one_user guarded_start)
handle-Adds_example =
    handle-Adds failures Guarded guarded Unit namespaced two_roles one_user guarded_start
