-- ===== src/Interleaving/Races.antt =====
-- What handlers of one call do to each other: a hangup that is handled twice, and a tick that goes on
-- after the hangup.
use voip_platform.Base.{◌≡◌, refl, ap, ◌∙◌, true, false, some, [], arith, nat_eq}
use voip_platform.Base.Dict.{get}
use voip_platform.Base.Int.{ℤ, pos, ◌+ℤ◌, ◌-ℤ◌, ltb_ℤ}
use voip_platform.Base.Text.{text_eq, codes}
use voip_platform.Core.{Env, refund_incrby}
use voip_platform.Core.Monad.{World, Result}
use voip_platform.Interleaving.Pause.{first_world, left_code, overtaken, paused-dispatch}
use voip_platform.Interleaving.Schedule.{Pool, Start, Moves}
use voip_platform.Interleaving.Worker.{dispatch-cut}
use voip_platform.Worker.Answer.{Event}
use voip_platform.Worker.Hangup.{hangup_session, settle, attempt}
use voip_platform.Worker.Hangup.Ending.{IsBillable, cost, handle_hangup_runs}
use voip_platform.Worker.Hangup.Settle.{settle_refunds}
use voip_platform.Worker.Loop.{is_named, dispatch}

module _ {F : Type 0} (env : Env F) (event : Event) (w : World) (c : IsBillable env event w)
    (is_hangup : is_named (get (codes "Event-Name") event) (codes "CHANNEL_HANGUP_COMPLETE")
      ≡ true) where
  -- What is left of the hangup after it has read the session.
  settles : World → World
  settles v =
      (settle env c.call_uuid event c.session c.account_id c.rate_per_second c.billsec c.duration
        v).1

  session_settles :
      (v : World)
      → (attempt (hangup_session env c.call_uuid event (get c.call_uuid w.redis.calls)) v).1
        ≡ settles v
  unfolding hangup_session settles
  session_settles v = ground arith

  left_settles : (v : World) → (left_code (dispatch-cut env event) w v).1 ≡ settles v
  left_settles v =
      let (_, e) = paused-dispatch env event w v is_hangup c.named c.nonempty c.reachable in
      ap (λ (p : Result (Unit {0}) × World). p.1) e ∙ session_settles v

  dispatch-settles : (dispatch env event w).1 ≡ settles w
  unfolding dispatch settles
  dispatch-settles = ground (arith, handle_hangup_runs env event w c)

  first_same : first_world (dispatch-cut env event) w ≡ w
  first_same = (paused-dispatch env event w w is_hangup c.named c.nonempty c.reachable).0

  settles_credit :
      (v : World) {balance total : ℤ}
      → get c.account_id v.redis.credits ≡ some balance
      → c.session.total_deducted_units ≡ some total
      → env.fails refund_incrby ≡ false
      → ltb_ℤ (pos 0) (total -ℤ cost env event w c) ≡ true
      → get c.account_id (settles v).redis.credits ≡ some (balance +ℤ (total -ℤ cost env event w c))
  unfolding settles
  settles_credit v held taken up positive =
      settle_refunds env c.call_uuid event c.session c.account_id c.rate_per_second c.billsec
        c.duration v up
      ∙ rw (taken, positive, held) refl

  -- If two tasks handle the same hangup of a call that can be billed, and one has read the session
  -- before the other deletes it, then there is an interleaving after which the account holds its
  -- balance and twice what the call took beyond its cost. The conditions are that Redis holds the
  -- balance and the session the total, that the total exceeds the cost and that the refund does not
  -- fail.
  pub duplicate_hangup_refunds_twice :
      {balance total : ℤ}
      → get c.account_id w.redis.credits ≡ some balance
      → c.session.total_deducted_units ≡ some total
      → env.fails refund_incrby ≡ false
      → ltb_ℤ (pos 0) (total -ℤ cost env event w c) ≡ true
      → (p : Pool F) × Moves (record { world = w; handlers = [] }) p
        × (let over = total -ℤ cost env event w c in
            get c.account_id p.world.redis.credits ≡ some (balance +ℤ over +ℤ over))
  duplicate_hangup_refunds_twice {balance} {total} held taken up positive =
      let first = Start.handling env event in
      let (hs, moves) = overtaken w first first in
      let cut = dispatch-cut env event in
      let v = (dispatch env event (first_world cut w)).1 in
      let once = settles_credit w held taken up positive in
      let twice = settles_credit (settles w) once taken up positive in
      (_, moves, rw (left_settles v, first_same, dispatch-settles) twice)
