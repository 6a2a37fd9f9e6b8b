-- ===== src/Tests/Samples.antt =====
-- Concrete values for the parameters of the model: errors that keep what they wrap, and an API
-- server that keeps its objects in a function from keys, with a list for the cache of the listers.
use rbacsync.Prelude.{
  String, string_eq, refl, ◌==◌, Bool, false, Option, none, some, List, [], ◌∷◌, arith,
  if◌then◌else◌,
}
use rbacsync.Errors
use rbacsync.Errors.{
  ErrorPackage, Sentinel, err_not_found, err_timeout, err_canceled, err_unknown, Result, ok, err,
}
use rbacsync.Api.{Subject, Binding, Config}
use rbacsync.Kube.{Kube, Scope, scope_eq, namespaced, BoundRole}
use rbacsync.Groups.{Grouper}
use rbacsync.Controller.Util.{new_binding, new_user_subject, new_rbac_sync_config}
use rbacsync.Kube.Server.{Server, Key, same_key}

pub data Failure : Type 0 where
  known : Sentinel → Failure
  other : String → Failure
  wrapped : Failure → String → Failure

unfoldable pub Failure-discrete : Discrete Failure
Failure-discrete = hlevel string_eq.dec

abbrev root : Failure → Failure
root (known s) = known s
root (other m) = other m
root (wrapped e m) = root e

abbrev pub failures : ErrorPackage
failures = record {
  Error = Failure;
  dec = Failure-discrete;
  sentinel = known;
  wrap = wrapped;
  wrapf = λ e format args. wrapped e format;
  cause = root;
}

pub failures-IsLawful : Errors.IsLawful failures
failures-IsLawful = record {
  cause-wrap = λ e m. refl;
  cause-wrapf = λ e m args. refl;
  cause-sentinel = λ s. refl;
  sentinel_injective = λ s t p. cc;
}

-- The objects by their keys.
abbrev pub Memory : Type 0
Memory = Key → Option (BoundRole String)

-- A server answers a write that it refuses with an error.
abbrev put :
    (BoundRole String → Bool)
    → Scope
    → BoundRole String
    → Memory
    → Result Failure (BoundRole String) × Memory
put refuses sc object find = if refuses object then (err (other "refused"), find) else (
  ok object,
  λ k.
      if same_key k (record { scope = sc; namespace = object.namespace; name = object.name })
      then some object
      else find k,
)

-- And so a delete under a locked name.
abbrev drop : (String → Bool) → Scope → String → String → Memory → Option Failure × Memory
drop locked sc namespace name find =
    let j : Key = record { scope = sc; namespace = namespace; name = name } in
    if locked name then (some (known err_unknown), find) else elim (find j) [
      | none ↦ (some (other "gone"), find)
      | some object ↦ (none, λ k. if same_key k j then none else find k)
    ]

abbrev owned_by : List String → String → Bool
owned_by [] uid = false
owned_by (owner ∷ owners) uid = owner == uid

abbrev is_gone : Failure → Bool
is_gone (other m) = m == "gone"
is_gone (known s) = false
is_gone (wrapped e m) = false

-- A server that refuses some writes and deletes, with a lister that shows what it makes of the
-- objects.
abbrev pub guarded_memory :
    (BoundRole String → Bool) → (String → Bool) → (Memory → List (BoundRole String)) → Kube failures
guarded_memory refuses locked show = record {
  State = Memory;
  OwnerReference = String;
  Requirement = String;
  Selector = List String;
  new_controller_ref = λ m group version kind. m.uid;
  is_controlled_by = λ object m. owned_by object.owner_references m.uid;
  new_selector = [];
  new_requirement = λ key values. ok key;
  add = λ selector requirement. requirement ∷ selector;
  update = put refuses;
  create = put refuses;
  delete = drop locked;
  list = λ sc namespace selector find. ok (show find);
  is_not_found = is_gone;
}

-- A server that writes everything or nothing, and deletes what it is asked to.
abbrev pub live_memory : Bool → (Memory → List (BoundRole String)) → Kube failures
live_memory refuses show = guarded_memory (λ object. refuses) (λ n. false) show

-- The lister shows the given objects.
abbrev pub memory : Bool → List (BoundRole String) → Kube failures
memory refuses cache = live_memory refuses (λ find. cache)

-- The sample servers meet the assumptions.
unfoldable pub guarded_server :
    (refuses : BoundRole String → Bool) (locked : String → Bool)
    (show : Memory → List (BoundRole String))
    → Server failures (guarded_memory refuses locked show)
guarded_server refuses locked show = record {
  get = λ k find. find k;
  stored = λ object. object;
  stored-name = λ object. refl;
  get-update = λ sc object returned s h. (ground arith, λ k. ground arith);
  get-update_failed = λ sc object s e h k. ground arith;
  get-create = λ sc object returned s h. (ground arith, λ k. ground arith);
  get-create_failed = λ sc object s e h k. ground arith;
  get-delete = λ k j s h. ground arith;
  get-delete_failed = λ k j s e h. ground arith;
  delete_not_found = λ j s e h g. ground arith;
}

unfoldable pub live_server :
    (refuses : Bool) (show : Memory → List (BoundRole String))
    → Server failures (live_memory refuses show)
unfolding guarded_server
live_server refuses show = guarded_server (λ object. refuses) (λ n. false) show

unfoldable pub memory_server :
    (refuses : Bool) (cache : List (BoundRole String)) → Server failures (memory refuses cache)
unfolding live_server
memory_server refuses cache = live_server refuses (λ find. cache)

-- Two users, a config of each kind of use, and the object of its binding.
abbrev pub user : String → Subject
user = new_user_subject

abbrev pub view : String → Binding
view group = new_binding group "view" "ClusterRole"

abbrev pub config_with : List Binding → Config
config_with bindings =
    let config = new_rbac_sync_config "ns" "c" [] bindings in
    record config { metadata = record config.metadata { uid = "u1"; resource_version = "1" } }

abbrev pub object_named : String → BoundRole String
object_named name = record {
  name = name;
  namespace = "ns";
  owner_references = "u1" ∷ [];
  labels = ("owner", "c") ∷ [];
  annotations = [];
  subjects = user "old" ∷ [];
  role_ref = record {
    api_group = "rbac.authorization.k8s.io";
    kind = "ClusterRole";
    name = "view";
  };
}

-- The key of an object of the config's namespace.
abbrev pub at : String → Key
at name = record { scope = namespaced; namespace = "ns"; name = name }

-- A server that holds one object.
abbrev pub holding : BoundRole String → Memory
holding object k = if same_key k (at object.name) then some object else none

-- The objects of some names that are there.
abbrev pub present : List String → Memory → List (BoundRole String)
present [] find = []
present (name ∷ names) find =
    let rest = present names find in
    elim (find (at name)) [ none ↦ rest | some object ↦ object ∷ rest ]

-- A grouper of one user, and one that cannot tell.
abbrev pub one_user : Grouper failures Unit
one_user group u = (ok (user "ann" ∷ []), u)

abbrev pub clueless : Grouper failures Unit
clueless group u = (err (known err_unknown), u)
