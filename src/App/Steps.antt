-- ===== src/App/Steps.antt =====
-- The later steps of `syseba_app_start` in src/app.c: watcher, initial synchronisation, web server.
use sy_se_ba.Prelude.{
  ◌≡◌, refl, sym, ◌∙◌, Bool, true, false, ◌&&◌, not, Option, none, some, if_both, if_either, arith,
}
use sy_se_ba.Config.{Failure}
use sy_se_ba.App.Service.{
  log_writer, worker, watcher, initial_sync, same_thread, Code, ok, Mode, Service, Answers,
  set_alive, watcher_start, web_start, start_initial, or_stop, start_web,
}
use sy_se_ba.App.Settled.{Owns, stop-IsDown, by_thread}
use sy_se_ba.App.Stage.{IsSettled, Stage, Complete, up}

module _ (a : Answers) (mode : Mode) where
  -- The outcome of `syseba_web_start`, and what follows.
  pub Served : Option Failure × Service → Type 0
  Served (failure, after) =
      IsSettled mode
        (or_stop a (elim failure [ none ↦ true | some f ↦ false ], after) (λ app. (ok, app)))

  pub served :
      (app : Service) → mode.web_enabled ≡ true → Complete mode false app → Served (web_start a app)
  unfolding web_start or_stop IsSettled Owns Served
  served app e (owns, lock, w, run, log, ws, v, i) =
      if_both Served (not a.address_fits) _ _ (stop-IsDown app owns) (
        if_both Served (not a.listen) _ _ (stop-IsDown app owns) (
          up mode true _ (sym e) (
            by_thread _ (owns log_writer) (λ n. owns (worker n)) (owns watcher) (owns initial_sync),
            lock,
            refl,
            run,
            log,
            ws,
            v,
            i,
          )))

  pub start_web_lem :
      (app : Service) → Complete mode false app → IsSettled mode (start_web a mode.web_enabled app)
  unfolding start_web IsSettled
  start_web_lem app stage =
      if_either (IsSettled mode) mode.web_enabled _ (ok, app)
        (λ e. unfold Served in served app e stage) (λ e. up mode false app (sym e) stage)

  -- The outcome of a step, and what follows.
  unfoldable pub Goes : (Service → Code × Service) → Bool × Service → Type 0
  Goes next p = IsSettled mode (or_stop a p next)

  pub initial-Goes :
      (app : Service)
      → mode.web_only ≡ false
      → Stage mode false true true false app
      → Goes (start_web a mode.web_enabled) (start_initial a mode.no_initial_sync app)
  unfolding Goes start_initial or_stop IsSettled Owns set_alive same_thread
  initial-Goes app daemon (owns, lock, w, run, log, ws, v, i) =
      if_either (Goes (start_web a mode.web_enabled))
        (not mode.no_initial_sync && a.create initial_sync) _ _
        (λ e. start_web_lem _ (
          by_thread _ (owns log_writer) (λ n. owns (worker n)) (owns watcher) refl,
          lock,
          w,
          run,
          log,
          (λ n. ws n ∙ ground (arith, daemon)),
          v ∙ ground (arith, daemon),
          ground (arith, daemon, e),
        ))
        (λ e.
          if_either (Goes (start_web a mode.web_enabled)) (not mode.no_initial_sync) _ _
            (λ f. stop-IsDown app owns)
            (λ f. start_web_lem app (
              owns,
              lock,
              w,
              run,
              log,
              (λ n. ws n ∙ ground (arith, daemon)),
              v ∙ ground (arith, daemon),
              i ∙ ground (arith, daemon, f),
            )))

  pub watcher-Goes :
      (app : Service)
      → mode.web_only ≡ false
      → Stage mode false true false false app
      → Goes
          (λ app.
            or_stop a (start_initial a mode.no_initial_sync app) (start_web a mode.web_enabled))
          (watcher_start a app)
  unfolding Goes watcher_start or_stop IsSettled Owns set_alive same_thread
  watcher-Goes app daemon (owns, lock, w, run, log, ws, v, i) =
      if_both
        (Goes (λ app.
          or_stop a (start_initial a mode.no_initial_sync app) (start_web a mode.web_enabled)))
        (not (a.create watcher)) _ _ (stop-IsDown app owns)
        (initial-Goes _ daemon (
          by_thread _ (owns log_writer) (λ n. owns (worker n)) refl (owns initial_sync),
          lock,
          w,
          run,
          log,
          ws,
          refl,
          i,
        ))
