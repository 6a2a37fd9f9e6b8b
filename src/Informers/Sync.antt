-- ===== src/Informers/Sync.antt =====
-- What WaitForCacheSync answers.
use mathlib.Core.List.{Perm}
use mathlib.Core.Option
use rbacsync.Prelude.{
  String, string_eq, ◌≡◌, Bool, Option, none, some, [], ◌∷◌, arith, if◌then◌else◌,
}
use rbacsync.Prelude.Dict.{Dict, lookup, insert, lookup-insert, UniqueKeys, insert-UniqueKeys}
use rbacsync.Prelude.Dict.Order.{Perm-Agree}
use rbacsync.Informers.{
  SharedInformerFactory, is_started, select_started, sync_loop, wait_for_cache_sync,
}

module _ (Client Informer Duration Tweak : Type 0) (synced : Informer → Bool) where
  abbrev OneFactory : Type 0
  OneFactory = SharedInformerFactory Client Informer Duration Tweak

  abbrev or_old : {A : Type 0} → Option A → Option A → Option A
  or_old none old = old
  or_old (some a) old = some a

  lookup-select_started :
      (t : String) (f : OneFactory) (es acc : Dict String Informer)
      → UniqueKeys es
      → lookup t (select_started Client Informer Duration Tweak es f acc) ≡ (
          if is_started Client Informer Duration Tweak f t
          then or_old (lookup t es) (lookup t acc)
          else lookup t acc)
  unfolding select_started lookup is_started
  lookup-select_started t f [] acc u = ground arith
  lookup-select_started t f ((k, i) ∷ es) acc (fresh, u) = ground (
    arith,
    lookup-select_started t f es (insert k i acc) u,
    lookup-select_started t f es acc u,
    lookup-insert t k i acc,
  )

  select_started-UniqueKeys :
      (f : OneFactory) (es acc : Dict String Informer)
      → UniqueKeys acc
      → UniqueKeys (select_started Client Informer Duration Tweak es f acc)
  unfolding select_started
  select_started-UniqueKeys f [] acc u = u
  select_started-UniqueKeys f ((k, i) ∷ es) acc u =
      select_started-UniqueKeys f es _ (ground (arith, insert-UniqueKeys k i acc u))

  lookup-sync_loop :
      (t : String) (es : Dict String Informer) (res : Dict String Bool)
      → UniqueKeys es
      → lookup t (sync_loop Client Informer Duration Tweak synced es res)
        ≡ or_old (Option.map synced (lookup t es)) (lookup t res)
  unfolding sync_loop lookup
  lookup-sync_loop t [] res u = ground arith
  lookup-sync_loop t ((k, i) ∷ es) res (fresh, u) =
      ground
        (arith, lookup-sync_loop t es (insert k (synced i) res) u, lookup-insert t k (synced i) res)

  -- Whatever the orders in which Go walks through the two maps: WaitForCacheSync answers for the
  -- types of the started informers and for no others, and answers with what its wait for the
  -- informer of the type returns.
  pub lookup-wait_for_cache_sync :
      IsSet Informer
      → (o p : Dict String Informer → Dict String Informer)
      → ((d : Dict String Informer) → Perm (o d) d)
      → ((d : Dict String Informer) → Perm (p d) d)
      → (f : OneFactory) (t : String) → UniqueKeys f.informers
      → lookup t (wait_for_cache_sync Client Informer Duration Tweak synced o p f) ≡ (
          if is_started Client Informer Duration Tweak f t
          then Option.map synced (lookup t f.informers)
          else none)
  unfolding wait_for_cache_sync lookup
  lookup-wait_for_cache_sync set o p op pp f t u =
      let (uo, same) = Perm-Agree set (op f.informers) u in
      let chosen = select_started Client Informer Duration Tweak (o f.informers) f [] in
      let (up, again) =
        Perm-Agree set (pp chosen) (select_started-UniqueKeys f (o f.informers) [] tt) in
      ground (
        arith,
        lookup-sync_loop t (p chosen) [] up,
        again t,
        lookup-select_started t f (o f.informers) [] uo,
        same t,
      )
