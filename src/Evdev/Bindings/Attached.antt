-- ===== src/Evdev/Bindings/Attached.antt =====
-- The list of bindings after `framework_evdev_init` and after `framework_evdev_destroy`.
use framework_kmod.Base.{
  Action, Bool, Bool-cases, List, [], arith, branch, codes, destroyed, false, foldl, free, held,
  if◌then◌else◌, inl, inr, live, map, none, ok, pure, refl, some, true, ℕ, ◌==◌, ◌∙◌, ◌∷◌, ◌≡◌,
}
use framework_kmod.Kernel.{Kernel, InputApi, Cdev}
use framework_kmod.Cdevs.{named, each, matchcdev_drv1-each}
use framework_kmod.Evthread.{Client, setcb, evdev_oninput, new_client, emptied}
use framework_kmod.Evthread.Calls.{registerclient}
use framework_kmod.Evthread.Listener.{Callback}
use framework_kmod.Evthread.Calls.Life.{
  ethread_at, owned, started, registered, unregistered, disposed, closed, ending, unregister_lem,
  destroy_lem,
}
use framework_kmod.Evthread.Calls as Calls
use framework_kmod.Evdev.{Evdev, Binding}
use framework_kmod.Evdev.Bindings.{
  EvdevSys, set_lock, size_of, bind, listened, matchdevs, init, unbind, unbind_all, release,
  destroy,
}

module _ {E : Type 0} (i : InputApi E) where
  -- The binding of a device, with the flags of its session.
  abbrev pub binding : ℕ → ℕ → Binding
  binding flags dev = record {
    evdev_device = some dev;
    listener_thread = live (
        ethread_at free true (new_client (size_of (i.ev_report_size dev)) dev) (some evdev_oninput)
          flags);
  }

  -- A device that is listened to was visited.
  abbrev pub bound : EvdevSys E → ℕ → EvdevSys E
  bound s dev = record {
    evdev = record (s.evdev) { bindings = binding 3 dev ∷ s.evdev.bindings };
    env = registered i dev (started i dev s.env);
  }

  -- A device with its driver pointer `dev` was visited.
  abbrev pub attached : EvdevSys E → ℕ → EvdevSys E
  attached s dev = if listened i dev then bound s dev else s

  bind_lem : (dev : ℕ) (s : EvdevSys E) → s.evdev.lock ≡ free → bind i dev s ≡ ok 0 (bound s dev)
  unfolding bind Calls.init setcb registerclient
  bind_lem dev s f = simp f refl

  matchdevs_lem :
      (name : List ℕ) (dev : ℕ) (s : EvdevSys E)
      → s.evdev.lock ≡ free
      → matchdevs i name (some dev) s ≡ ok 0 (attached s dev)
  unfolding matchdevs
  matchdevs_lem name dev s f = elim (Bool-cases (listened i dev)) [
    | inl y ↦ rw y (bind_lem dev s f)
    | inr n ↦ rw n refl
  ]

  attached_free :
      (s : EvdevSys E) (dev : ℕ) → s.evdev.lock ≡ free → (attached s dev).evdev.lock ≡ free
  attached_free s dev f = ground arith

  each_lem :
      (l : List Cdev) (devs : List ℕ) (s : EvdevSys E)
      → map (λ c. c.si_drv1) l ≡ map (λ d. some d) devs
      → s.evdev.lock ≡ free
      → each (matchdevs i) l s ≡ ok 0 (foldl attached s devs)
  each_lem [] [] s h f = refl
  each_lem [] (d ∷ devs) s h f = ground arith
  each_lem (c ∷ l) [] s h f = ground arith
  each_lem (c ∷ l) (d ∷ devs) s h f =
      let e : c.si_drv1 ≡ some d = ground arith in
      let rest : map (λ c. c.si_drv1) l ≡ map (λ d. some d) devs = ground arith in
      rw (e, matchdevs_lem c.si_name d s f)
        (each_lem l devs (attached s d) rest (attached_free s d f))

  -- The bindings of these devices before `bs`, the last one first.
  abbrev pub listeners : List ℕ → List Binding → List Binding
  listeners [] bs = bs
  listeners (d ∷ ds) bs = listeners ds (if listened i d then binding 3 d ∷ bs else bs)

  abbrev pub opened : List ℕ → E → E
  opened [] e = e
  opened (d ∷ ds) e = opened ds (if listened i d then registered i d (started i d e) else e)

  attached_all :
      (devs : List ℕ) (s : EvdevSys E)
      → foldl attached s devs ≡ record {
        evdev = record (s.evdev) { bindings = listeners devs s.evdev.bindings };
        env = opened devs s.env;
      }
  attached_all [] s = refl
  attached_all (d ∷ ds) s = elim (Bool-cases (listened i d)) [
    | inl y ↦ rw y (attached_all ds (bound s d))
    | inr n ↦ rw n (attached_all ds s)
  ]

  -- The binding of a device with this client, whose listener is at work.
  abbrev pub at_work : ℕ × Client → Binding
  at_work (dev, c) = record {
    evdev_device = some dev;
    listener_thread =
        live (
          ethread_at free true (record (owned dev c) { ec_revoked = false }) (some evdev_oninput)
            7);
  }

  unbind_lem :
      (cb : Callback E) (d : ℕ) (c : Client) (s : EvdevSys E)
      → s.evdev.lock ≡ held
      → unbind i (ending i cb) (at_work (d, c)).listener_thread s
        ≡ ok tt (set_lock held (record s { env = closed i d (unregistered i d s.env) }))
  unfolding unbind
  unbind_lem cb d c s h =
      let c' = emptied (record c { ec_revoked = (disposed i d s.env).value }) in
      simp
        (
          h,
          unregister_lem i d true c (some evdev_oninput) s.env,
          destroy_lem i cb d c' (some evdev_oninput) (unregistered i d s.env),
        )
        refl

  abbrev pub shut : List (ℕ × Client) → E → E
  shut [] e = e
  shut ((d, c) ∷ ds) e = shut ds (closed i d (unregistered i d e))

  abbrev pub locked_at : List Binding → Evdev → E → EvdevSys E
  locked_at bs v e = record { evdev = record v { bindings = bs; lock = held }; env = e }

  unbind_all_lem :
      (cb : Callback E) (devs : List (ℕ × Client)) (v : Evdev) (e : E)
      → unbind_all i (ending i cb) (map at_work devs) (locked_at (map at_work devs) v e)
        ≡ ok tt (locked_at [] v (shut devs e))
  unfolding unbind_all
  unbind_all_lem cb [] v e = refl
  unbind_all_lem cb ((d, c) ∷ ds) v e =
      simp (unbind_lem cb d c (locked_at (map at_work ds) v e) refl)
        (unbind_all_lem cb ds v (closed i d (unregistered i d e)))

  release_lem :
      (cb : Callback E) (devs : List (ℕ × Client)) (s : EvdevSys E)
      → s.evdev.lock ≡ free
      → s.evdev.bindings ≡ map at_work devs
      → release i (ending i cb) s
        ≡ ok 0 (record {
          evdev = record (s.evdev) {
            bindings = [];
            cbfunc = none;
            active = false;
            lock = destroyed;
            state = 0;
          };
          env = shut devs s.env;
        })
  unfolding release
  release_lem cb devs s f b =
      let v = record (s.evdev) { cbfunc = none; active = false } in
      simp (f, b, unbind_all_lem cb devs v s.env) refl

  branch_lem :
      (t : Bool) (m n : Action (EvdevSys E) ℕ) (s : EvdevSys E) → t ≡ false → branch t m n s ≡ n s
  branch_lem t m n s h = rw h refl

  -- With every listener asleep in its session, `framework_evdev_destroy` returns 0, ends and frees
  -- each session, takes each client off its device once, in the order of the list, and leaves an
  -- empty list, no callback and a destroyed mutex; no lock is misused.
  pub destroy-shut :
      (cb : Callback E) (devs : List (ℕ × Client)) (s : EvdevSys E)
      → s.evdev.lock ≡ free
      → s.evdev.state ≡ 1
      → s.evdev.bindings ≡ map at_work devs
      → destroy i (ending i cb) s
        ≡ ok 0 (record {
          evdev = record (s.evdev) {
            bindings = [];
            cbfunc = none;
            active = false;
            lock = destroyed;
            state = 0;
          };
          env = shut devs s.env;
        })
  unfolding destroy
  destroy-shut cb devs s f st b =
      branch_lem (s.evdev.state == 0) (pure 0) (release i (ending i cb)) s (ground arith)
      ∙ release_lem cb devs s f b

module _ {E : Type 0} (k : Kernel E) (i : InputApi E) where
  -- On a kernel where every input device has its driver pointer: `framework_evdev_init` returns 0,
  -- and binds a session with a registered client and the callback to each device with a listed
  -- name, the last one at the head; no other device is touched.
  pub init-listeners :
      (devs : List ℕ) (s : EvdevSys E)
      → map (λ c. c.si_drv1) (named (codes "input/event") (k.cdevp_list s.env))
        ≡ map (λ d. some d) devs
      → init k i s
        ≡ ok 0 (record {
          evdev = record (s.evdev) {
            bindings = listeners i devs [];
            cbfunc = none;
            active = true;
            lock = free;
            state = 1;
          };
          env = opened i devs s.env;
        })
  unfolding init
  init-listeners devs s h =
      let v = record (s.evdev) { bindings = []; cbfunc = none; active = true; lock = free } in
      let t = record s { evdev = v } in
      simp
        (
          matchcdev_drv1-each 105 (codes "nput/event") (matchdevs i) (k.cdevp_list s.env) t,
          each_lem i (named (codes "input/event") (k.cdevp_list s.env)) devs t h refl,
          attached_all i devs t,
        )
        refl
