-- ===== src/Interleaving/Pause.antt =====
-- A handler that stops at its second await: the world that its first action leaves, and what it still
-- has to do.
use voip_platform.Base.{
  ◌≡◌, refl, ap, ◌∙◌, Bool, true, false, Option, none, some, List, [], ◌∷◌, ◌++◌, arith,
}
use voip_platform.Base.Dict.{get}
use voip_platform.Base.Text.{Text, text_eq, codes, is_nonempty}
use voip_platform.Core.{Env, session_hgetall}
use voip_platform.Core.Coroutine.{finished, awaits, Coroutine-if, Coroutine-bind, Coroutine-act}
use voip_platform.Core.Monad.{World, M, Result, ok, lift}
use voip_platform.Interleaving.{Handler}
use voip_platform.Interleaving.Cuts.{attempt-cut, fetch-cut}
use voip_platform.Interleaving.Schedule.{
  Running, running, Start, Moves, start, resume, stay, move, Moves-trans,
}
use voip_platform.Interleaving.Sequential.{ended, runs_alone}
use voip_platform.Interleaving.Worker.{dispatch-cut, handle_hangup-cut, hangup_uuid-cut}
use voip_platform.Worker.Answer.{Event}
use voip_platform.Worker.Hangup.{attempt, hangup_session}
use voip_platform.Worker.Loop.{is_named}

module _ {F : Type 0} {env : Env F} {A : Type 0} where
  abbrev pub first_world : {m : M A} → Handler env m → World → World
  first_world (finished r) w = w
  first_world (awaits m rest act cut) w = (m w).1

  abbrev pub left_code : {m : M A} → Handler env m → World → M A
  left_code (finished r) w = lift r
  left_code (awaits m rest act cut) w = rest (m w).0

  abbrev left_cut : {m : M A} (cut : Handler env m) (w : World) → Handler env (left_code cut w)
  left_cut (finished r) w = finished r
  left_cut (awaits m rest act cut) w = cut (m w).0

  pub pauses :
      {m : M A} (cut : Handler env m) (w : World) (before after : List (Running F))
      → Moves
          (record { world = w; handlers = before ++ (running env cut ∷ after) })
          (record {
            world = first_world cut w;
            handlers = before ++ (running env (left_cut cut w) ∷ after);
          })
  pauses (finished r) w before after = stay _
  pauses (awaits m rest act cut) w before after =
      move (resume env w before after m rest act cut) (stay _)

  -- A handler stops after its first action, another one comes and runs to its end, and then the first
  -- one goes on.
  pub overtaken :
      {m : M A} {cut : Handler env m} {env' : Env F} {B : Type 0} {n : M B} {cut' : Handler env' n}
      (w : World)
      → Start (running env cut)
      → Start (running env' cut')
      → (hs : List (Running F)) × Moves
          (record { world = w; handlers = [] })
          (record { world = (left_code cut w (n (first_world cut w)).1).1; handlers = hs })
  overtaken {m} {cut} {env'} {n} {cut'} w s s' =
      let w1 = first_world cut w in
      let paused = running env (left_cut cut w) in
      let w2 = (n w1).1 in
      (
        _,
        move (start w [] s) (
            Moves-trans (pauses cut w [] []) (
              move (start w1 (paused ∷ []) s') (
                Moves-trans (runs_alone env' n cut' w1 [] (paused ∷ [])) (
                  runs_alone env (left_code cut w) (left_cut cut w) w2 (ended env' (n w1).0 ∷ [])
                    [])))),
      )

  pub paused-if :
      (b : Bool) (m n : M A) (cm : Handler env m) (cn : Handler env n) (w v : World)
      → b ≡ true
      → (first_world (Coroutine-if b m n cm cn) w ≡ first_world cm w)
        × (left_code (Coroutine-if b m n cm cn) w v ≡ left_code cm w v)
  unfolding Coroutine-if
  paused-if true m n cm cn w v e = (refl, refl)
  paused-if false m n cm cn w v e = absurd (ground arith)

module _ {F : Type 0} (env : Env F) where
  pub paused-attempt :
      {m : M (Unit {0})} (cut : Handler env m) (w v : World)
      → (first_world (attempt-cut env m cut) w ≡ first_world cut w)
        × (left_code (attempt-cut env m cut) w v ≡ attempt (left_code cut w) v)
  unfolding attempt-cut
  paused-attempt (finished r) w v = (refl, refl)
  paused-attempt (awaits m rest act cut) w v = (refl, refl)

  paused-hangup_uuid :
      (o : Option Text) {u : Text} (event : Event) (w v : World)
      → o ≡ some u
      → is_nonempty u ≡ true
      → env.fails session_hgetall ≡ false
      → (first_world (hangup_uuid-cut env o event) w ≡ w)
        × (left_code (hangup_uuid-cut env o event) w v
            ≡ hangup_session env u event (get u w.redis.calls) v)
  unfolding hangup_uuid-cut Coroutine-bind Coroutine-if fetch-cut Coroutine-act
  paused-hangup_uuid none event w v e nonempty up = absurd (ground arith)
  paused-hangup_uuid (some []) event w v e nonempty up = absurd (ground arith)
  paused-hangup_uuid (some (x ∷ s)) event w v e nonempty up = (ground arith, ground arith)

  -- A task that handles a hangup has read the session after its first action.
  pub paused-dispatch :
      (event : Event) (w v : World) {u : Text}
      → is_named (get (codes "Event-Name") event) (codes "CHANNEL_HANGUP_COMPLETE") ≡ true
      → get (codes "Unique-ID") event ≡ some u
      → is_nonempty u ≡ true
      → env.fails session_hgetall ≡ false
      → (first_world (dispatch-cut env event) w ≡ w)
        × (left_code (dispatch-cut env event) w v
            ≡ attempt (hangup_session env u event (get u w.redis.calls)) v)
  unfolding dispatch-cut handle_hangup-cut
  paused-dispatch event w v {u} is_hangup named nonempty up =
      let cut = handle_hangup-cut env event in
      let (e1, e2) =
        paused-hangup_uuid (get (codes "Unique-ID") event) event w v named nonempty up in
      let (a1, a2) = paused-attempt cut w v in
      let (i1, i2) =
        paused-if (is_named (get (codes "Event-Name") event) (codes "CHANNEL_HANGUP_COMPLETE")) _ _
          (attempt-cut env _ cut) _ w v is_hangup in
      (i1 ∙ a1 ∙ e1, i2 ∙ a2 ∙ ap (λ (p : Result (Unit {0}) × World). (ok tt, p.1)) e2)
