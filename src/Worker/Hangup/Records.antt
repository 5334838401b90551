-- ===== src/Worker/Hangup/Records.antt =====
-- What a hangup writes to the tables.
use voip_platform.Base.{ℕ, ◌≡◌, refl, ap, ◌∙◌, false, Option, none, some, arith, ◌==◌, nat_eq}
use voip_platform.Base.Dict.{get}
use voip_platform.Base.Int.{ℤ, pos, ◌-ℤ◌}
use voip_platform.Base.Text.{Text, text_eq, codes}
use voip_platform.Core.{Env, online_update}
use voip_platform.Core.Monad.{World}
use voip_platform.Decimal.{Decimal, dec}
use voip_platform.Models.{Db}
use voip_platform.Models.Query.{update_where}
use voip_platform.Redis.{Session}
use voip_platform.Worker.Answer.{Event, id_field}
use voip_platform.Worker.Cdr.{finalize_statistics, update_consultant_status}
use voip_platform.Worker.Hangup.{
  handle_hangup, refund, write_cdr, reset_consultant, get_or, credit_after_of,
}
use voip_platform.Worker.Hangup.Ending.{IsBillable, handle_hangup_runs, cost}
use voip_platform.Worker.Hangup.Settle.{settle_reaches_clean_up}
use voip_platform.Worker.Hangup.Steps.{clean_up_world, refund_world}

-- The consultant whose call has ended takes calls again.
abbrev pub freed : Option ℕ → Db → Db
freed none db = db
freed (some consultant_id) db = record db {
  consultants =
      update_where (λ c. c.id == consultant_id) (λ c. record c { ivr_status = 1 }) db.consultants;
}

module _ {F : Type 0} (env : Env F) where
  -- The update of the row is refused, and what stands behind it is not reached.
  write_cdr_none :
      (event : Event) (session : Session) (billsec duration : ℤ) (cause : Text)
      (before after rate : Decimal) (id : Option ℕ) (w : World)
      → (write_cdr env event session billsec duration cause before after rate id w).1.db ≡ w.db
  unfolding write_cdr finalize_statistics
  write_cdr_none event session billsec duration cause before after rate none w = refl
  write_cdr_none event session billsec duration cause before after rate (some id) w = ground arith

  reset_frees :
      (o : Option ℕ) (w : World)
      → env.fails online_update ≡ false
      → (reset_consultant env o w).1.db ≡ freed o w.db
  unfolding reset_consultant update_consultant_status
  reset_frees none w up = refl
  reset_frees (some id) w up = ground arith

  -- A hangup of a call that can be billed never finalizes its row and appends no tracing, whatever
  -- else fails, because the status is a text and its column holds integers: the tables are as
  -- before, but that the session's consultant, if it has one, is online. The condition is that this
  -- last update does not fail.
  pub hangup_writes_no_record :
      (event : Event) (w : World) (c : IsBillable env event w)
      → env.fails online_update ≡ false
      → (handle_hangup env event w).1.db ≡ freed (id_field c.session.consultant_id) w.db
  hangup_writes_no_record event w c up =
      let s = c.session in
      let units = get_or s.total_deducted_units (pos 0) -ℤ cost env event w c in
      let w1 = (refund env c.account_id units w).1 in
      let cause = get_or (get (codes "Hangup-Cause") event) (codes "NORMAL_CLEARING") in
      let before = get_or s.credit_before (dec 0 0) in
      let after = credit_after_of env before (cost env event w c) in
      let (v, _, last, runs) =
        settle_reaches_clean_up env c.call_uuid event s c.account_id c.rate_per_second c.billsec
          c.duration w in
      let (_, same, _, _) = refund_world env c.account_id units w in
      let unwritten =
        write_cdr_none event s c.billsec c.duration cause before after c.rate_per_second
          (id_field s.statistics_id) w1 in
      rw (handle_hangup_runs env event w c, runs, (clean_up_world env c.call_uuid c.account_id v).0)
        (last
          ∙ reset_frees (id_field s.consultant_id)
              (write_cdr env event s c.billsec c.duration cause before after c.rate_per_second
                (id_field s.statistics_id) w1).1
              up
          ∙ ap (freed (id_field s.consultant_id)) (unwritten ∙ same))
