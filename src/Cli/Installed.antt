-- ===== src/Cli/Installed.antt =====
-- An installation that is done need not be done again.
use re_remote_dev.Cli.Install.{
  Done, InstallOutcome, Installed, Project, Setting, broke, cancelled, ending, holds, holds_tdl,
  in_place, install_files, install_local_orchestrator, install_ssh_then, install_tdl, install_units,
  local_service_matches,
}
use re_remote_dev.Prelude.{
  Bool, Option, String, ap, arith, eq_iff, false, if_both, if◌then◌else◌, none, not, refl, some,
  subst, sym, true, ◌&&◌, ◌||◌, ◌∙◌, ◌≡◌,
}
use re_remote_dev.Result.{Result, err, failed, ok, ◌>>◌}

abbrev pub CompleteIfFinished : (String → String) → Project → InstallOutcome → Type 0
CompleteIfFinished render p (in_place, f, d) = local_service_matches render p f ≡ true
CompleteIfFinished render p (cancelled, f, d) = Unit
CompleteIfFinished render p (broke e, f, d) = Unit

holds_self : (s : String) → holds s (some s) ≡ true
holds_self s = (eq_iff s s).1 refl

module _ (render : String → String) (p : Project) (set : Setting) where
  complete_ending :
      (r : Result (Unit {0})) (f : Installed) (d : Done)
      → local_service_matches render p f ≡ true
      → CompleteIfFinished render p (ending r, f, d)
  complete_ending (ok u) f d h = h
  complete_ending (err e) f d h = tt

  install_tdl_complete :
      (asked : Bool) (f : Installed) (o : Option String)
      → p.executable ≡ true
      → p.tdl ≡ o
      → f.hook_file ≡ some p.hook
      → CompleteIfFinished render p (install_tdl render p set asked f o)
  unfolding install_tdl
  install_tdl_complete asked f none x t h = tt
  install_tdl_complete asked f (some text) x t h = go set.ssh_installed
    where
      g : Installed
      g = record f { tdl_file = some text }

      go :
          (r : Result (Unit {0}))
          → CompleteIfFinished render p (install_ssh_then render p set asked g r)
      go (err e) = unfold install_ssh_then in tt
      go (ok u) =
          unfold install_ssh_then install_units in
          complete_ending _ _ _ (
            unfold local_service_matches in
            rw
              (
                x,
                t,
                h,
                holds_self (render p.service),
                holds_self p.socket,
                holds_self p.hook,
                holds_self text,
              )
              refl)

  install_local_orchestrator_complete :
      (confirm : Bool) (f : Installed)
      → CompleteIfFinished render p (install_local_orchestrator render p set confirm f)
  unfolding install_local_orchestrator install_files
  install_local_orchestrator_complete confirm f =
      if_both (CompleteIfFinished render p)
        ((confirm && not (local_service_matches render p f)) && not set.agrees) tt
        (files p.executable refl)
    where
      asks : Bool
      asks = confirm && not (local_service_matches render p f)

      files :
          (b : Bool)
          → p.executable ≡ b
          → CompleteIfFinished render p (
              if not b
              then (
                broke (failed "未找到项目统一入口 re-remote"),
                f,
                record { asked = asks; restarted = false },
              )
              else install_tdl render p set asks (record f { hook_file = some p.hook }) p.tdl)
      files true x =
          install_tdl_complete asks (record f { hook_file = some p.hook }) p.tdl x refl refl
      files false x = tt

holds-some : (content : String) (o : Option String) → holds content o ≡ true → o ≡ some content
holds-some content none h = cc
holds-some content (some text) h = ap some ((eq_iff text content).0 h)

-- The files of an installation that matches.
record IsCurrent (render : String → String) (p : Project) (f : Installed) : Type 0 where
  there : p.executable ≡ true
  service_current : f.service_file ≡ some (render p.service)
  socket_current : f.socket_file ≡ some p.socket
  hook_current : f.hook_file ≡ some p.hook
  tdl_current : holds_tdl p.tdl f.tdl_file ≡ true

matches-IsCurrent :
    (render : String → String) (p : Project) (f : Installed)
    → local_service_matches render p f ≡ true
    → IsCurrent render p f
unfolding local_service_matches
matches-IsCurrent render p f h =
    let x : p.executable ≡ true = ground arith in
    let a : holds (render p.service) f.service_file ≡ true = ground arith in
    let b : holds p.socket f.socket_file ≡ true = ground arith in
    let c : holds p.hook f.hook_file ≡ true = ground arith in
    let d : holds_tdl p.tdl f.tdl_file ≡ true = ground arith in
    record {
      there = x;
      service_current = holds-some (render p.service) f.service_file a;
      socket_current = holds-some p.socket f.socket_file b;
      hook_current = holds-some p.hook f.hook_file c;
      tdl_current = d;
    }

module _ (render : String → String) (p : Project) (set : Setting) where
  -- Nothing is written anew, asked or restarted.
  abbrev IsIdle : Installed → InstallOutcome → Type 0
  IsIdle f (e, g, d) = (g ≡ f) × (d.asked ≡ false) × (d.restarted ≡ false)

  install_units-IsIdle :
      (f : Installed) → IsCurrent render p f → IsIdle f (install_units render p set false f)
  unfolding install_units
  install_units-IsIdle f h = (
    ap (λ (s : Option String). record f { service_file = s; socket_file = some p.socket })
          (sym h.service_current)
        ∙ ap (λ (s : Option String). record f { socket_file = s }) (sym h.socket_current),
    refl,
    unchanged (set.reload >> set.enable),
  )
    where
      same_files :
          (not (holds (render p.service) f.service_file) || not (holds p.socket f.socket_file))
          ≡ false
      same_files =
          rw
            (
              h.service_current,
              h.socket_current,
              holds_self (render p.service),
              holds_self p.socket,
            )
            refl

      unchanged :
          (r : Result (Unit {0}))
          → elim r [
            | ok u ↦
                not (holds (render p.service) f.service_file) || not (holds p.socket f.socket_file)
            | err e ↦ false
          ]
            ≡ false
      unchanged (ok u) = same_files
      unchanged (err e) = refl

  install_tdl-IsIdle :
      (f : Installed) (o : Option String)
      → IsCurrent render p f
      → holds_tdl o f.tdl_file ≡ true
      → IsIdle f (install_tdl render p set false f o)
  unfolding install_tdl
  install_tdl-IsIdle f none h t = cc
  install_tdl-IsIdle f (some text) h t =
      subst (λ (g : Installed). IsIdle f (install_ssh_then render p set false g set.ssh_installed))
        (ap (λ (x : Option String). record f { tdl_file = x }) (holds-some text f.tdl_file t))
        (go set.ssh_installed)
    where
      go : (r : Result (Unit {0})) → IsIdle f (install_ssh_then render p set false f r)
      go (err e) = unfold install_ssh_then in (refl, refl, refl)
      go (ok u) = unfold install_ssh_then in install_units-IsIdle f h

  current-IsIdle :
      (confirm : Bool) (f : Installed)
      → local_service_matches render p f ≡ true
      → IsIdle f (install_local_orchestrator render p set confirm f)
  unfolding install_local_orchestrator install_files
  current-IsIdle confirm f m =
      let h : IsCurrent render p f = matches-IsCurrent render p f m in
      let no_question : (confirm && not (local_service_matches render p f)) ≡ false =
        ground arith in
      rw (no_question, h.there)
        (subst (λ (g : Installed). IsIdle f (install_tdl render p set false g p.tdl))
          (ap (λ (x : Option String). record f { hook_file = x }) h.hook_current)
          (install_tdl-IsIdle f p.tdl h h.tdl_current))

-- After an installation that came to its end the installed files match the source tree, and another one,
-- in whatever setting, asks nothing, restarts nothing and leaves the files as they are.
pub install_again :
    (render : String → String) (p : Project) (set later : Setting) (confirm again : Bool)
    (f g : Installed) (d : Done)
    → install_local_orchestrator render p set confirm f ≡ (in_place, g, d)
    → (local_service_matches render p g ≡ true)
      × (let second = install_local_orchestrator render p later again g in
          (second.1 ≡ g) × (second.2.asked ≡ false) × (second.2.restarted ≡ false))
install_again render p set later confirm again f g d e =
    let m : local_service_matches render p g ≡ true =
      subst (CompleteIfFinished render p) e
        (install_local_orchestrator_complete render p set confirm f) in
    (m, current-IsIdle render p later again g m)
