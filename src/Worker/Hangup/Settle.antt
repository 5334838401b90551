-- ===== src/Worker/Hangup/Settle.antt =====
-- What a hangup does to the money and to the session.
use voip_platform.Base.{ℕ, ◌≡◌, refl, ◌∙◌, false, none, some, nat_eq, if◌then◌else◌}
use voip_platform.Base.Dict.{get}
use voip_platform.Base.Int.{ℤ, pos, ◌-ℤ◌, ltb_ℤ}
use voip_platform.Base.Text.{Text, text_eq, codes}
use voip_platform.Core.{Env, refund_incrby, session_delete}
use voip_platform.Core.Monad.{World, ◌>>◌}
use voip_platform.Core.Ensures.{>>=-of-ok}
use voip_platform.Decimal.{Decimal, dec}
use voip_platform.Redis.{Session, add_units}
use voip_platform.Worker.Answer.{Event, id_field}
use voip_platform.Worker.Hangup.{
  refund, write_cdr, reset_consultant, clean_up, settle, actual_cost_units_of, credit_after_of,
  get_or,
}
use voip_platform.Worker.Hangup.Steps.{
  refund_world, refund_credit, write_cdr_world, reset_consultant_world, clean_up_world,
  clean_up_call,
}

module _ {F : Type 0} (env : Env F) (call_uuid : Text) (event : Event) (session : Session)
    (account_id : ℕ) (rate_per_second : Decimal) (billsec duration : ℤ) (w : World) where
  abbrev after : World
  after = (settle env call_uuid event session account_id rate_per_second billsec duration w).1

  abbrev pub over : ℤ
  over =
      get_or session.total_deducted_units (pos 0)
      -ℤ actual_cost_units_of env rate_per_second billsec

  abbrev pub left : Decimal
  left =
      credit_after_of env (get_or session.credit_before (dec 0 0))
        (actual_cost_units_of env rate_per_second billsec)

  -- The steps before the last return, whatever fails in them, so the last is always made.
  pub settle_reaches_clean_up :
      (v : World) × (v.redis ≡ (refund env account_id over w).1.redis)
      × (v.db
          ≡ (reset_consultant env
              (id_field session.consultant_id)
              (write_cdr env event session billsec duration
                (get_or (get (codes "Hangup-Cause") event) (codes "NORMAL_CLEARING"))
                (get_or session.credit_before (dec 0 0))
                left
                rate_per_second
                (id_field session.statistics_id)
                (refund env account_id over w).1).1).1.db)
      × (settle env call_uuid event session account_id rate_per_second billsec duration w
          ≡ clean_up env call_uuid account_id v)
  unfolding settle
  settle_reaches_clean_up =
      let cause = get_or (get (codes "Hangup-Cause") event) (codes "NORMAL_CLEARING") in
      let before = get_or session.credit_before (dec 0 0) in
      let statistics_id = id_field session.statistics_id in
      let consultant_id = id_field session.consultant_id in
      let write =
        write_cdr env event session billsec duration cause before left rate_per_second
          statistics_id in
      let reset = reset_consultant env consultant_id in
      let clean = clean_up env call_uuid account_id in
      let w1 = (refund env account_id over w).1 in
      let w2 = (write w1).1 in
      let written =
        write_cdr_world env event session billsec duration cause before left rate_per_second
          statistics_id w1 in
      let online = reset_consultant_world env consultant_id w2 in
      (
        (reset w2).1,
        online.1 ∙ written.1,
        refl,
        >>=-of-ok (refund env account_id over) (λ _. write >> (reset >> clean)) w
              (refund_world env account_id over w).0
            ∙ >>=-of-ok write (λ _. reset >> clean) w1 written.0
            ∙ >>=-of-ok reset (λ _. clean) w2 online.0,
      )

  -- The session is deleted whatever fails before, be it the refund, the call record or the
  -- consultant's status.
  pub settle_deletes_session :
      env.fails session_delete ≡ false → get call_uuid after.redis.calls ≡ none
  settle_deletes_session up =
      let (v, _, _, runs) = settle_reaches_clean_up in
      rw (after, runs) (clean_up_call env call_uuid account_id v up)

  -- The account gets back what was taken beyond the cost of the answered seconds, and no more.
  pub settle_refunds :
      env.fails refund_incrby ≡ false
      → get account_id after.redis.credits ≡ (
          if ltb_ℤ (pos 0) over
          then some (add_units (get account_id w.redis.credits) over)
          else get account_id w.redis.credits)
  settle_refunds up =
      let (v, same, _, runs) = settle_reaches_clean_up in
      rw (after, runs, (clean_up_world env call_uuid account_id v).1, same)
        (refund_credit env account_id over w up)
