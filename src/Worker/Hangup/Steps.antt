-- ===== src/Worker/Hangup/Steps.antt =====
-- The steps of a hangup, one by one: what each leaves alone.
use voip_platform.Base.{ℕ, ◌≡◌, false, Option, none, some, arith, nat_eq, if◌then◌else◌, ==-refl}
use voip_platform.Base.Dict.{get, get-put, get-remove}
use voip_platform.Base.Int.{ℤ, pos, ltb_ℤ}
use voip_platform.Base.Text.{Text, text_eq}
use voip_platform.Core.{Env, refund_incrby, session_delete}
use voip_platform.Core.Monad.{World, ok}
use voip_platform.Decimal.{Decimal}
use voip_platform.Redis.{Session, add_units}
use voip_platform.Worker.Answer.{Event}
use voip_platform.Worker.Cdr.{finalize_statistics, append_tracing, update_consultant_status}
use voip_platform.Worker.Hangup.{refund, write_cdr, reset_consultant, clean_up}

module _ {F : Type 0} (env : Env F) where
  -- The refund touches one balance, and nothing else.
  pub refund_world :
      (account_id : ℕ) (over : ℤ) (w : World)
      → let (r, w') = refund env account_id over w in
        (r ≡ ok tt)
        × (w'.db ≡ w.db)
        × (w'.redis.calls ≡ w.redis.calls)
        × (w'.redis.concurrent ≡ w.redis.concurrent)
  unfolding refund
  refund_world account_id over w = ground arith

  pub refund_credit :
      (account_id : ℕ) (over : ℤ) (w : World)
      → env.fails refund_incrby ≡ false
      → get account_id (refund env account_id over w).1.redis.credits ≡ (
          if ltb_ℤ (pos 0) over
          then some (add_units (get account_id w.redis.credits) over)
          else get account_id w.redis.credits)
  unfolding refund
  refund_credit account_id over w up = ground (
    arith,
    get-put account_id account_id (add_units (get account_id w.redis.credits) over) w.redis.credits,
    ==-refl account_id,
  )

  pub write_cdr_world :
      (event : Event) (session : Session) (billsec duration : ℤ) (cause : Text)
      (before after rate : Decimal) (id : Option ℕ) (w : World)
      → let (r, w') = write_cdr env event session billsec duration cause before after rate id w in
        (r ≡ ok tt) × (w'.redis ≡ w.redis)
  unfolding write_cdr finalize_statistics append_tracing
  write_cdr_world event session billsec duration cause before after rate none w = ground arith
  write_cdr_world event session billsec duration cause before after rate (some id) w = ground arith

  pub reset_consultant_world :
      (id : Option ℕ) (w : World)
      → let (r, w') = reset_consultant env id w in
        (r ≡ ok tt)
        × (w'.redis ≡ w.redis)
        × (w'.db.tracings ≡ w.db.tracings)
        × (w'.db.statistics ≡ w.db.statistics)
  unfolding reset_consultant update_consultant_status
  reset_consultant_world none w = ground arith
  reset_consultant_world (some id) w = ground arith

  pub clean_up_world :
      (call_uuid : Text) (account_id : ℕ) (w : World)
      → let (r, w') = clean_up env call_uuid account_id w in
        (w'.db ≡ w.db) × (w'.redis.credits ≡ w.redis.credits)
  unfolding clean_up
  clean_up_world call_uuid account_id w = ground arith

  pub clean_up_call :
      (call_uuid : Text) (account_id : ℕ) (w : World)
      → env.fails session_delete ≡ false
      → get call_uuid (clean_up env call_uuid account_id w).1.redis.calls ≡ none
  unfolding clean_up
  clean_up_call call_uuid account_id w up =
      ground (arith, get-remove call_uuid call_uuid w.redis.calls, ==-refl call_uuid)

  pub clean_up_deletes :
      (call_uuid : Text) (account_id : ℕ) (w : World)
      → (clean_up env call_uuid account_id w).0 ≡ ok tt
      → env.fails session_delete ≡ false
  unfolding clean_up
  clean_up_deletes call_uuid account_id w e = ground arith
