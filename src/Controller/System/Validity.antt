-- ===== src/Controller/System/Validity.antt =====
-- Every object that the controller writes is one that Kubernetes accepts: an invariant of the states
-- that the controller reaches.
use mathlib.Core.List.{Nodup}
use rbacsync.Prelude.{String, ◌≡◌, ◌≢◌, refl, inl, inr, true, subst, sym, Option, some, [], ◌∷◌}
use rbacsync.Api.{Config}
use rbacsync.Errors.{ErrorPackage, Result}
use rbacsync.Groups.{Grouper}
use rbacsync.Groups.Subjects.{MapOrder, IsOrder}
use rbacsync.Groups.Subjects.Order.{IsSorted}
use rbacsync.Groups.Subjects.Laws.{normalize_lem}
use rbacsync.Kube.{Kube, Scope, BoundRole}
use rbacsync.Kube.Server.{Server, Key, key_of}
use rbacsync.Controller.Effects.{World}
use rbacsync.Controller.Bindings.{kind_is_valid, object_for}
use rbacsync.Controller.Resolve.Entitled.{resolve_groups-normalize}
use rbacsync.Controller.Queue.{Keys}
use rbacsync.Controller.System.{System, Reaches}
use rbacsync.Controller.System.Grants.{Origin, Reaches-Origin}

module _ (P : ErrorPackage) (K : Kube P) (S : Server P K) where
  -- The object under a key is what the server makes of an object of that key whose role is of a kind
  -- that may be bound there, and whose subjects are at least one, each listed once, and ordered by
  -- name.
  pub record IsValid (k : Key) (object : BoundRole K.OwnerReference) : Type 0 where
    pub made : BoundRole K.OwnerReference
    pub stored : object ≡ S.stored made
    pub placed : k ≡ key_of P K k.scope made
    pub role : kind_is_valid k.scope made.role_ref.kind ≡ true
    pub some_subject : made.subjects ≢ []
    pub once : Nodup made.subjects
    pub sorted : IsSorted made.subjects

  module _ (C : Keys P) (o : MapOrder) (U : Type 0) (grouper : Option (Grouper P U))
      (get : Scope → String → String → World P K U → Result P.Error Config) where
    -- Every object on the server is valid.
    abbrev pub AllValid : System P K C o U grouper get → Type 0
    AllValid s =
        (k : Key) (object : BoundRole K.OwnerReference)
        → S.get k s.world.server ≡ some object
        → IsValid k object

    Origin-IsValid :
        IsOrder o
        → (k : Key) (object : BoundRole K.OwnerReference) → Origin P K S C o U grouper get k object
        → IsValid k object
    unfolding object_for
    Origin-IsValid O k object origin =
        let g = origin.granted in
        let subjects = g.first ∷ g.others in
        let (xs, same) =
          resolve_groups-normalize P U o O grouper origin.config.spec.memberships g.binding.group
            g.outside subjects g.answered in
        let (named, once, sorted) = normalize_lem o O xs in
        subst (λ j. IsValid j object) (sym g.placed)
          (record {
            made = object_for P K U origin.scope origin.config g.binding subjects;
            stored = g.made;
            placed = refl;
            role = g.valid;
            some_subject = λ p. cc;
            once = subst Nodup (sym same) once;
            sorted = subst IsSorted (sym same) sorted;
          })

    -- Call an object valid if it is what the server makes of one for its key whose role is of a kind
    -- that may be bound there, with subjects of which there is one at least, each listed once and
    -- ordered by name. If every object on the server is valid, and Go walks through each entry of a
    -- map once, then every object is valid in each state that the controller reaches, however events,
    -- polls and workers take turns.
    pub Reaches-IsValid :
        {s t : System P K C o U grouper get}
        → IsOrder o
        → AllValid s
        → Reaches P K C o U grouper get s t
        → AllValid t
    Reaches-IsValid O start run k object there =
        elim (Reaches-Origin P K S C o U grouper get k object O run there) [
          | inl old ↦ start k object old
          | inr new ↦ Origin-IsValid O k object new
        ]
