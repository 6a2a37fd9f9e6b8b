-- ===== src/Kube/Server.antt =====
-- What the controller relies on of the Kubernetes API: a call that succeeds does what it says to the
-- object of that name, and to no other; a call that fails changes nothing.
use rbacsync.Prelude.{
  String, string_eq, ◌≡◌, ◌==◌, Bool, true, ◌&&◌, Option, none, some, if◌then◌else◌,
}
use rbacsync.Errors.{ErrorPackage, ok, err}
use rbacsync.Kube.{Kube, Scope, scope_eq, BoundRole}

-- An object is found by its kind, its namespace and its name.
pub record Key : Type 0 where
  pub scope : Scope
  pub namespace : String
  pub name : String

abbrev pub same_key : Key → Key → Bool
same_key j k = (j.scope == k.scope) && ((j.namespace == k.namespace) && (j.name == k.name))

module _ (P : ErrorPackage) (K : Kube P) where
  abbrev pub key_of : Scope → BoundRole K.OwnerReference → Key
  key_of sc object = record { scope = sc; namespace = object.namespace; name = object.name }

  pub record Server : Type 0 where
    -- The object under a key.
    pub get : Key → K.State → Option (BoundRole K.OwnerReference)
    -- What the API server makes of an object that it stores: it fills in defaults.
    pub stored : BoundRole K.OwnerReference → BoundRole K.OwnerReference
    pub stored-name : (object : BoundRole K.OwnerReference) → (stored object).name ≡ object.name
    pub get-update :
        (sc : Scope) (object returned : BoundRole K.OwnerReference) (s : K.State)
        → (K.update sc object s).0 ≡ ok returned
        → (returned ≡ stored object)
          × ((k : Key)
              → get k (K.update sc object s).1
                ≡ (if same_key k (key_of sc object) then some (stored object) else get k s))
    pub get-update_failed :
        (sc : Scope) (object : BoundRole K.OwnerReference) (s : K.State) (e : P.Error)
        → (K.update sc object s).0 ≡ err e
        → (k : Key) → get k (K.update sc object s).1 ≡ get k s
    pub get-create :
        (sc : Scope) (object returned : BoundRole K.OwnerReference) (s : K.State)
        → (K.create sc object s).0 ≡ ok returned
        → (returned ≡ stored object)
          × ((k : Key)
              → get k (K.create sc object s).1
                ≡ (if same_key k (key_of sc object) then some (stored object) else get k s))
    pub get-create_failed :
        (sc : Scope) (object : BoundRole K.OwnerReference) (s : K.State) (e : P.Error)
        → (K.create sc object s).0 ≡ err e
        → (k : Key) → get k (K.create sc object s).1 ≡ get k s
    pub get-delete :
        (k j : Key) (s : K.State)
        → (K.delete j.scope j.namespace j.name s).0 ≡ none
        → get k (K.delete j.scope j.namespace j.name s).1 ≡ (if same_key k j then none else get k s)
    pub get-delete_failed :
        (k j : Key) (s : K.State) (e : P.Error)
        → (K.delete j.scope j.namespace j.name s).0 ≡ some e
        → get k (K.delete j.scope j.namespace j.name s).1 ≡ get k s
    -- The delete of an object is refused as "not found" only if the object is not there.
    pub delete_not_found :
        (j : Key) (s : K.State) (e : P.Error)
        → (K.delete j.scope j.namespace j.name s).0 ≡ some e
        → K.is_not_found e ≡ true
        → get j s ≡ none
