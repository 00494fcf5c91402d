-- ===== src/Supervisor/Lifecycle.antt =====
-- The manager of pkg/services/supervisor: its methods in business.go and lifecycle.go, without the
-- monitor. `active` is that `cancel` is not nil.
use framingo.Prelude.{
  ◌≡◌, Bool, false, Option, none, some, if◌then◌else◌, Outcome, ok, err, panics, ◌>>=◌, sym, ap,
  ◌∙◌, arith,
}
use framingo.Supervisor.{Env, Controller, is_nil, find, init, start, stop, restart}
use framingo.Supervisor.Batches.{init_all, start_all, stop_all}

pub record Manager (N E : Type 0) : Type 0 where
  pub active : Bool
  pub c : Controller N E
  pub has_time_limit : Bool

module _ {N E : Type 0} (env : Env N E) where
  -- What the operation of the controller gives, if the service is known.
  abbrev pub with_service :
      Controller N E
      → N
      → (N → Outcome E (Controller N E × Option E))
      → Outcome E (Controller N E × Option E)
  with_service c n act = elim (find env c.services n) [
    | none ↦ ok (c, some (env.not_found n))
    | some s ↦ act s
  ]

  abbrev pub error_only :
      Outcome E (Controller N E × Bool × Option E) → Outcome E (Controller N E × Option E)
  error_only o = o >>= λ (r : Controller N E × Bool × Option E). ok (r.0, r.2)

  unfoldable pub init_service : Controller N E → N → Outcome E (Controller N E × Option E)
  init_service c n = with_service c n (λ s. error_only (init env c s))

  unfoldable pub start_service : Controller N E → N → Outcome E (Controller N E × Option E)
  start_service c n = with_service c n (λ s. error_only (start env c s))

  unfoldable pub stop_service : Controller N E → N → Outcome E (Controller N E × Option E)
  stop_service c n = with_service c n (λ s. error_only (stop env c s))

  unfoldable pub restart_service : Controller N E → N → Outcome E (Controller N E × Option E)
  restart_service c n = with_service c n (λ s. restart env c s)

  -- The rest of `Start` after `startAll`, and of `Stop` with `stopAll`.
  abbrev pub after_start :
      Manager N E → Outcome E (Controller N E × Option E) → Outcome E (Manager N E × Option E)
  after_start m o =
      o >>= λ (r : Controller N E × Option E). ok (record m { c = r.0; active = is_nil r.1 }, r.1)

  abbrev pub after_stop :
      Manager N E → Outcome E (Controller N E × Option E) → Outcome E (Manager N E × Option E)
  after_stop m o =
      o >>= λ (r : Controller N E × Option E). ok (record m { active = false; c = r.0 }, r.1)

  unfoldable pub start_manager : Manager N E → Outcome E (Manager N E × Option E)
  start_manager m = if m.active then ok (m, none) else after_start m (start_all env m.c)

  unfoldable pub stop_manager : Manager N E → Bool → Outcome E (Manager N E × Option E)
  stop_manager m late =
      if m.active then after_stop m (stop_all env m.c m.has_time_limit late) else ok (m, none)

  unfoldable pub restart_manager : Manager N E → Bool → Outcome E (Manager N E × Option E)
  unfolding start_manager stop_manager
  restart_manager m late = stop_manager m late >>= λ (p : Manager N E × Option E).
      init_all env p.0.c >>= λ (q : Controller N E × Option E).
      let m' = record p.0 { c = q.0 } in
      elim q.1 [ some e ↦ ok (m', some e) | none ↦ start_manager m' ]

  -- Where the controller's start gives an error, the manager does not become active.
  started_inactive :
      (m k : Manager N E) (e : E) (o : Outcome E (Controller N E × Option E))
      → after_start m o ≡ ok (k, some e)
      → k.active ≡ false
  started_inactive m k e (ok (c, none)) h = ground arith
  started_inactive m k e (ok (c, some e')) h = ground arith
  started_inactive m k e (err e') h = ground arith
  started_inactive m k e panics h = ground arith

  -- If the manager was not active and its Start has failed, Stop does nothing and returns no
  -- error, so that it leaves alone every service that did start.
  pub stop-start_failed :
      (m k : Manager N E) (e : E) (late : Bool)
      → m.active ≡ false
      → start_manager m ≡ ok (k, some e)
      → stop_manager k late ≡ ok (k, none)
  unfolding start_manager stop_manager
  stop-start_failed m k e late a h =
      let inactive =
        started_inactive m k e (start_all env m.c)
          (sym (ap (λ b. if b then ok (m, none) else after_start m (start_all env m.c)) a) ∙ h) in
      ap (λ b. if b then after_stop k (stop_all env k.c k.has_time_limit late) else ok (k, none))
        inactive
