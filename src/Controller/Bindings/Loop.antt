-- ===== src/Controller/Bindings/Loop.antt =====
-- What holds of the objects and of the marked names after the loop over the bindings.
use rbacsync.Prelude.{
  String, string_eq, ◌≡◌, ◌≢◌, refl, sym, ◌∙◌, ◌⊎◌, inl, true, false, none, List, [], ◌∷◌, ◌++◌,
  arith, contains, if◌then◌else◌,
}
use rbacsync.Api.{Binding, Config}
use rbacsync.Errors.{ErrorPackage}
use rbacsync.Groups.{Grouper}
use rbacsync.Kube.{Kube, Scope, scope_eq}
use rbacsync.Kube.Server.{Server, Key, same_key}
use rbacsync.Controller.Effects.{World}
use rbacsync.Controller.Bindings.{
  object_for, bound_name, namespace_of, kind_is_valid, bind_one, bind_all,
}
use rbacsync.Controller.Bindings.Writes.{Outcome, skipped, held, bound, bind_one_lem}

module _ (sc : Scope) (config : Config) where
  -- The key of the object of a name that the handler for a config works on.
  abbrev pub target : String → Key
  target name = record { scope = sc; namespace = namespace_of sc config; name = name }

  -- The names that the bindings with a valid kind of role stand for.
  unfoldable pub bound_names : List Binding → List String
  bound_names [] = []
  bound_names (binding ∷ bindings) =
      let rest = bound_names bindings in
      if kind_is_valid sc binding.role_ref.kind then bound_name config binding ∷ rest else rest

module _ (P : ErrorPackage) (K : Kube P) (S : Server P K) (U : Type 0) (sc : Scope)
    (config : Config) where
  module _ {binding : Binding} {active active' : List String} {s t : K.State} where
    one-present :
        Outcome P K S U sc config binding active s active' t
        → (k : Key) → S.get k s ≢ none
        → S.get k t ≢ none
    one-present (skipped a same) k h = λ e. h (sym (same k) ∙ e)
    one-present (held v a same) k h = λ e. h (sym (same k) ∙ e)
    one-present (bound members v fresh a sets) k h = ground (arith, sets k)

    one-marks :
        Outcome P K S U sc config binding active s active' t
        → (n : String) → contains active n ≡ true
        → contains active' n ≡ true
    one-marks (skipped a same) n m = ground arith
    one-marks (held v a same) n m = ground arith
    one-marks (bound members v fresh a sets) n m = ground arith

    one-kept :
        Outcome P K S U sc config binding active s active' t
        → (n : String) → contains active n ≡ true
        → S.get (target sc config n) t ≡ S.get (target sc config n) s
    unfolding object_for
    one-kept (skipped a same) n m = same _
    one-kept (held v a same) n m = same _
    one-kept (bound members v fresh a sets) n m = ground (arith, sets (target sc config n))

    one-frame :
        Outcome P K S U sc config binding active s active' t
        → (k : Key)
        → (kind_is_valid sc binding.role_ref.kind ≡ true
            → same_key k (target sc config (bound_name config binding)) ≡ false)
        → S.get k t ≡ S.get k s
    unfolding object_for
    one-frame (skipped a same) k h = same k
    one-frame (held v a same) k h = same k
    one-frame (bound members v fresh a sets) k h = ground (arith, sets k, h v)

    one-names :
        Outcome P K S U sc config binding active s active' t
        → (n : String) → contains active' n ≡ true
        → (contains active n ≡ true) ⊎ (contains (bound_names sc config (binding ∷ [])) n ≡ true)
    unfolding bound_names
    one-names (skipped a same) n m = ground arith
    one-names (held v a same) n m = ground arith
    one-names (bound members v fresh a sets) n m = ground arith

  module _ (gm : Grouper P U) where
    -- The marked names and the world after the loop.
    abbrev after : List Binding → List String → World P K U → List String × World P K U
    after = bind_all P K U sc config gm

    one :
        (binding : Binding) (active : List String) (w : World P K U)
        → let (active', w') = bind_one P K U sc config gm binding active w in
          Outcome P K S U sc config binding active w.server active' w'.server
    one binding active w = bind_one_lem P K S U sc config gm binding active w

    -- The loop deletes nothing.
    pub bind_all-present :
        (bindings : List Binding) (active : List String) (w : World P K U) (k : Key)
        → S.get k w.server ≢ none
        → S.get k (after bindings active w).1.server ≢ none
    unfolding bind_all
    bind_all-present [] active w k h = h
    bind_all-present (b ∷ bindings) active w k h =
        bind_all-present bindings _ _ k (one-present (one b active w) k h)

    -- A marked name stays marked,
    pub bind_all-marks :
        (bindings : List Binding) (active : List String) (w : World P K U) (n : String)
        → contains active n ≡ true
        → contains (after bindings active w).0 n ≡ true
    unfolding bind_all
    bind_all-marks [] active w n m = m
    bind_all-marks (b ∷ bindings) active w n m =
        bind_all-marks bindings _ _ n (one-marks (one b active w) n m)

    -- and the object under it is not written again.
    pub bind_all-kept :
        (bindings : List Binding) (active : List String) (w : World P K U) (n : String)
        → contains active n ≡ true
        → S.get (target sc config n) (after bindings active w).1.server
          ≡ S.get (target sc config n) w.server
    unfolding bind_all
    bind_all-kept [] active w n m = refl
    bind_all-kept (b ∷ bindings) active w n m =
        let o = one b active w in bind_all-kept bindings _ _ n (one-marks o n m) ∙ one-kept o n m

    -- Only objects that a binding stands for are written.
    pub bind_all-frame :
        (bindings : List Binding) (active : List String) (w : World P K U) (k : Key)
        → ((n : String)
            → contains (bound_names sc config bindings) n ≡ true
            → same_key k (target sc config n) ≡ false)
        → S.get k (after bindings active w).1.server ≡ S.get k w.server
    unfolding bind_all bound_names
    bind_all-frame [] active w k h = refl
    bind_all-frame (b ∷ bindings) active w k h =
        bind_all-frame bindings _ _ k (λ n m. h n (ground arith))
        ∙ one-frame (one b active w) k (λ v. h (bound_name config b) (ground arith))

    -- Only names that a binding stands for are marked.
    pub bind_all-names :
        (bindings : List Binding) (active : List String) (w : World P K U) (n : String)
        → contains (after bindings active w).0 n ≡ true
        → (contains active n ≡ true) ⊎ (contains (bound_names sc config bindings) n ≡ true)
    unfolding bind_all bound_names
    bind_all-names [] active w n m = inl m
    bind_all-names (b ∷ bindings) active w n m =
        ground (arith, bind_all-names bindings _ _ n m, one-names (one b active w) n)

    -- The loop over two lists, one after the other.
    pub bind_all-append :
        (bs cs : List Binding) (active : List String) (w : World P K U)
        → after (bs ++ cs) active w ≡ after cs (after bs active w).0 (after bs active w).1
    unfolding bind_all
    bind_all-append [] cs active w = refl
    bind_all-append (b ∷ bs) cs active w = bind_all-append bs cs _ _

    -- A name that no valid binding stands for is not marked.
    pub bind_all-unmarked :
        (bindings : List Binding) (active : List String) (w : World P K U) (n : String)
        → contains active n ≡ false
        → contains (bound_names sc config bindings) n ≡ false
        → contains (after bindings active w).0 n ≡ false
    bind_all-unmarked bindings active w n old new =
        ground (arith, bind_all-names bindings active w n)
