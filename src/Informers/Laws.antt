-- ===== src/Informers/Laws.antt =====
-- Each informer is made once and started once.
use mathlib.Core.List.{Mem, Perm, mem-cons_self, mem-cons_of_mem, forall_mem-cons, not-mem-nil}
use mathlib.Core.List.Perm
use rbacsync.Prelude.{
  String, string_eq, ◌≡◌, refl, ◌∙◌, subst, Bool-eq-prop, true, [], ◌∷◌, ◌==◌, arith, if◌then◌else◌,
}
use rbacsync.Prelude.Dict.{Dict, lookup-insert}
use rbacsync.Informers.{
  SharedInformerFactory, is_started, start_one, start_loop, start, resync_period, informer_for,
}

module _ (Client Informer Duration Tweak : Type 0) where
  abbrev AnyFactory : Type 0
  AnyFactory = SharedInformerFactory Client Informer Duration Tweak

  -- All entries are marked as started.
  abbrev Started : Dict String Informer → AnyFactory → Type 0
  Started es f =
      (e : String × Informer) → Mem e es → is_started Client Informer Duration Tweak f e.0 ≡ true

  start_one-marks :
      (type : String) (informer : Informer) (f : AnyFactory) (t : String)
      → is_started Client Informer Duration Tweak
          (start_one Client Informer Duration Tweak type informer f)
          t
        ≡ (if t == type then true else is_started Client Informer Duration Tweak f t)
  unfolding start_one is_started
  start_one-marks type informer f t = ground (arith, lookup-insert t type true f.started_informers)

  start_loop-keeps :
      (es : Dict String Informer) (f : AnyFactory) (t : String)
      → is_started Client Informer Duration Tweak f t ≡ true
      → is_started Client Informer Duration Tweak (start_loop Client Informer Duration Tweak es f) t
        ≡ true
  unfolding start_loop
  start_loop-keeps [] f t h = h
  start_loop-keeps ((type, informer) ∷ es) f t h =
      start_loop-keeps es _ t (ground (arith, start_one-marks type informer f t))

  start_loop-all :
      (es : Dict String Informer) (f : AnyFactory)
      → Started es (start_loop Client Informer Duration Tweak es f)
  unfolding start_loop
  start_loop-all [] f = λ e m. absurd (not-mem-nil m)
  start_loop-all ((type, informer) ∷ es) f = (forall_mem-cons (λ _. Bool-eq-prop)).1 (
    start_loop-keeps es _ type (ground (arith, start_one-marks type informer f type)),
    start_loop-all es _,
  )

  start_loop-idle :
      (es : Dict String Informer) (f : AnyFactory)
      → Started es f
      → start_loop Client Informer Duration Tweak es f ≡ f
  unfolding start_loop start_one
  start_loop-idle [] f h = refl
  start_loop-idle ((type, informer) ∷ es) f h =
      rw (h (type, informer) mem-cons_self, start_loop)
        (start_loop-idle es f (λ e m. h e (mem-cons_of_mem _ m)))

  start_loop-informers :
      (es : Dict String Informer) (f : AnyFactory)
      → (start_loop Client Informer Duration Tweak es f).informers ≡ f.informers
  unfolding start_loop start_one
  start_loop-informers [] f = refl
  start_loop-informers ((type, informer) ∷ es) f = start_loop-informers es _ ∙ ground arith

  -- Starting a factory again changes nothing and so runs no informer again, whatever the orders in
  -- which Go walks through the informers.
  pub start-start :
      (o p : Dict String Informer → Dict String Informer) (f : AnyFactory)
      → ((d : Dict String Informer) → Perm (o d) d)
      → ((d : Dict String Informer) → Perm (p d) d)
      → start Client Informer Duration Tweak p (start Client Informer Duration Tweak o f)
        ≡ start Client Informer Duration Tweak o f
  unfolding start
  start-start o p f op pp =
      let g = start_loop Client Informer Duration Tweak (o f.informers) f in
      start_loop-idle (p g.informers) g (λ e m. start_loop-all (o f.informers) f e (
        (Perm.mem_iff (op f.informers)).1 (
          subst (λ d. Mem e d) (start_loop-informers (o f.informers) f)
            ((Perm.mem_iff (pp g.informers)).0 m))))

  -- Asking twice for the informer of a type gives one informer: the second time nothing is made,
  -- whatever function is given to make it, and the factory stays.
  pub informer_for-informer_for :
      (type : String) (n m : Client → Duration → Informer) (f : AnyFactory)
      → let (informer, g) = informer_for Client Informer Duration Tweak type n f in
        informer_for Client Informer Duration Tweak type m g ≡ (informer, g)
  unfolding informer_for
  informer_for-informer_for type n m f = ground (
    arith,
    lookup-insert type type (n f.client (resync_period Client Informer Duration Tweak f type))
        f.informers,
  )
