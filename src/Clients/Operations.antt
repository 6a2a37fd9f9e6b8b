-- ===== src/Clients/Operations.antt =====
-- What the calls of the clients ask of the API server, as a request of the client and as an action
-- of its fake.
use rbacsync.Prelude.{◌≡◌, String, Bool, true, false, Option, none, some, List, [], ◌∷◌}
use rbacsync.Api.{Config}
use rbacsync.Errors.{ErrorPackage, ok}
use rbacsync.Clients.{
  MetaOptions, ListOptions, Verb, get, post, put, delete, patch, Step, on_namespace, on_resource,
  on_name, on_sub_resource, with_params, list_params, with_body, object, raw, Request, Rest,
}
use rbacsync.Clients.Fakes.{
  GroupVersionResource, Action, get_action, list_action, watch_action, create_action, update_action,
  update_subresource_action, delete_action, delete_collection_action, patch_subresource_action,
  Fake,
}

-- The verbs of the Kubernetes API.
pub data Kind : Type 0 where
  gets lists watches creates updates deletes deletes_all patches : Kind

-- What a call writes: nothing, an object or a patch.
pub data Payload (M : MetaOptions) : Type 0 where
  nothing : Payload M
  written : Config → Payload M
  patched : M.PatchType → String → Payload M

pub record Operation (M : MetaOptions) : Type 0 where
  pub kind : Kind
  pub namespace : Option String
  pub resource : String
  pub name : Option String
  pub subresources : List String
  pub payload : Payload M

-- The nine calls of a client.
pub data Call (M : MetaOptions) : Type 0 where
  get_call : String → M.GetOptions → Call M
  list_call watch_call : ListOptions M → Call M
  create_call : Config → M.CreateOptions → Call M
  update_call update_status_call : Config → M.UpdateOptions → Call M
  delete_call : String → M.DeleteOptions → Call M
  delete_collection_call : M.DeleteOptions → ListOptions M → Call M
  patch_call : String → M.PatchType → String → M.PatchOptions → List String → Call M

-- The options of a list do not ask for a watch.
unfoldable pub IsPlain : {M : MetaOptions} → Call M → Type 0
IsPlain (list_call opts) = opts.watch ≡ false
IsPlain c = Unit

unfoldable pub ArePlain : {M : MetaOptions} → List (Call M) → Type 0
ArePlain [] = Unit
ArePlain (c ∷ rest) = IsPlain c × ArePlain rest

module _ {M : MetaOptions} where
  -- The documentation of the Kubernetes API: the verb of a request follows from its method, whether
  -- it has a name, and whether its parameters ask for a watch.
  abbrev asks_watch : List (Step M) → Bool
  asks_watch [] = false
  asks_watch (with_params (list_params opts) ∷ rest) = opts.watch
  asks_watch (step ∷ rest) = asks_watch rest

  abbrev kind_of : Verb M → Option String → Bool → Kind
  kind_of get (some n) w = gets
  kind_of get none true = watches
  kind_of get none false = lists
  kind_of post n w = creates
  kind_of put n w = updates
  kind_of delete (some n) w = deletes
  kind_of delete none w = deletes_all
  kind_of (patch pt) n w = patches

  abbrev namespace_in : List (Step M) → Option String
  namespace_in [] = none
  namespace_in (on_namespace ns ∷ rest) = some ns
  namespace_in (step ∷ rest) = namespace_in rest

  abbrev resource_in : List (Step M) → String
  resource_in [] = ""
  resource_in (on_resource r ∷ rest) = r
  resource_in (step ∷ rest) = resource_in rest

  abbrev name_in : List (Step M) → Option String
  name_in [] = none
  name_in (on_name n ∷ rest) = some n
  name_in (step ∷ rest) = name_in rest

  abbrev subresources_in : List (Step M) → List String
  subresources_in [] = []
  subresources_in (on_sub_resource rs ∷ rest) = rs
  subresources_in (step ∷ rest) = subresources_in rest

  abbrev payload_in : Verb M → List (Step M) → Payload M
  payload_in verb [] = nothing
  payload_in verb (with_body (object config) ∷ rest) = written config
  payload_in (patch pt) (with_body (raw bytes) ∷ rest) = patched pt bytes
  payload_in verb (step ∷ rest) = payload_in verb rest

  unfoldable pub request_operation : Request M → Operation M
  request_operation r = record {
    kind = kind_of r.verb (name_in r.steps) (asks_watch r.steps);
    namespace = namespace_in r.steps;
    resource = resource_in r.steps;
    name = name_in r.steps;
    subresources = subresources_in r.steps;
    payload = payload_in r.verb r.steps;
  }

  -- The documentation of k8s.io/client-go/testing.
  abbrev operation :
      Kind
      → GroupVersionResource
      → Option String
      → Option String
      → List String
      → Payload M
      → Operation M
  operation kind r ns n subresources payload = record {
    kind = kind;
    namespace = ns;
    resource = r.resource;
    name = n;
    subresources = subresources;
    payload = payload;
  }

  unfoldable pub action_operation : Action M → Operation M
  action_operation (get_action r ns n) = operation gets r ns (some n) [] nothing
  action_operation (list_action r k ns opts) = operation lists r ns none [] nothing
  action_operation (watch_action r ns opts) = operation watches r ns none [] nothing
  action_operation (create_action r ns c) = operation creates r ns none [] (written c)
  action_operation (update_action r ns c) =
      operation updates r ns (some c.metadata.name) [] (written c)
  action_operation (update_subresource_action r sub ns c) =
      operation updates r ns (some c.metadata.name) (sub ∷ []) (written c)
  action_operation (delete_action r ns n opts) = operation deletes r ns (some n) [] nothing
  action_operation (delete_collection_action r ns opts) = operation deletes_all r ns none [] nothing
  action_operation (patch_subresource_action r ns n pt bytes subs) =
      operation patches r ns (some n) subs (patched pt bytes)

module _ (P : ErrorPackage) (M : MetaOptions) (reply : Config) where
  -- A server that answers each request with one object and keeps the requests.
  abbrev pub recorder : Rest M P
  recorder = record {
    State = List (Request M);
    ConfigList = Unit;
    Watch = Unit;
    into = λ r log. ((reply, none), r ∷ log);
    into_list = λ r log. ((tt, none), r ∷ log);
    error = λ r log. (none, r ∷ log);
    watch = λ r log. (ok tt, r ∷ log);
  }

  abbrev pub fake_recorder : Fake M P
  fake_recorder = record {
    State = List (Action M);
    ListMeta = Unit;
    Watch = Unit;
    Selector = Unit;
    invokes = λ a log. ((some reply, none), a ∷ log);
    invokes_list = λ a log. ((some (tt, []), none), a ∷ log);
    invokes_watch = λ a log. (ok tt, a ∷ log);
    extract_label = λ opts. none;
    everything = tt;
    matches = λ label item. true;
  }
