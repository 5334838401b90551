-- ===== src/Worker/Hangup/Ending.antt =====
-- What CHANNEL_HANGUP_COMPLETE does to a call.
use voip_platform.Base.{
  ℕ, ◌≡◌, refl, sym, ap, ◌∙◌, true, false, Option, none, some, [], ◌∷◌, arith, nat_eq,
  if◌then◌else◌, ◌⊎◌, inl, inr, Option-cases,
}
use voip_platform.Base.Dict.{get}
use voip_platform.Base.Int.{ℤ, pos, ◌+ℤ◌, ◌-ℤ◌, ltb_ℤ, min_ℤ, int_laws}
use voip_platform.Base.Text.{Text, text_eq, codes, is_nonempty}
use voip_platform.Base.Text.Numbers.{parse_int}
use voip_platform.Core.{Env, value_error, session_hgetall, refund_incrby, session_delete}
use voip_platform.Core.Monad.{World, Result, ok, err}
use voip_platform.Decimal.{Decimal}
use voip_platform.Redis.{Session}
use voip_platform.Worker.Answer.{Event}
use voip_platform.Worker.Hangup.{
  handle_hangup, hangup_session, settle, clean_up, actual_cost_units_of, int_field,
}
use voip_platform.Worker.Hangup.Settle.{
  settle_reaches_clean_up, settle_deletes_session, settle_refunds,
}
use voip_platform.Worker.Hangup.Steps.{clean_up_deletes}

-- The event ends a call that the worker can bill: it names a call whose hash has an account and both
-- prices, and its seconds are numbers.
pub record IsBillable {F : Type 0} (env : Env F) (event : Event) (w : World) : Type 0 where
  pub call_uuid : Text
  pub session : Session
  pub account_id : ℕ
  pub rate_per_second : Decimal
  pub rate_per_minute : Decimal
  pub billsec : ℤ
  pub duration : ℤ
  pub named : get (codes "Unique-ID") event ≡ some call_uuid
  pub nonempty : is_nonempty call_uuid ≡ true
  pub reachable : env.fails session_hgetall ≡ false
  pub found : get call_uuid w.redis.calls ≡ some session
  pub account : session.account_id ≡ some account_id
  pub second_price : session.rate_per_second ≡ some rate_per_second
  pub minute_price : session.rate_per_minute ≡ some rate_per_minute
  pub seconds : int_field (get (codes "variable_billsec") event) ≡ ok billsec
  pub length : int_field (get (codes "variable_duration") event) ≡ ok duration

refund_amount :
    (balance total cost : ℤ)
    → (if ltb_ℤ (pos 0) (total -ℤ cost) then some (balance +ℤ (total -ℤ cost)) else some balance)
      ≡ some (balance +ℤ total -ℤ min_ℤ total cost)
unfolding min_ℤ
refund_amount balance total cost = grind int_laws

module _ {F : Type 0} (env : Env F) (event : Event) (w : World) where
  pub handle_hangup_runs :
      (c : IsBillable env event w)
      → handle_hangup env event w
        ≡ settle env c.call_uuid event c.session c.account_id c.rate_per_second c.billsec c.duration
            w
  unfolding handle_hangup
  handle_hangup_runs c = ground arith

  abbrev pub cost : IsBillable env event w → ℤ
  cost c = actual_cost_units_of env c.rate_per_second c.billsec

  -- After the hangup of a call that can be billed, the account holds its balance plus the units that
  -- the call had taken, less the smaller of those and the cost of the answered seconds. The
  -- conditions are that Redis holds the balance, that the session holds the total and that the
  -- refund does not fail.
  pub hangup_charges_cost :
      (c : IsBillable env event w) {balance total : ℤ}
      → get c.account_id w.redis.credits ≡ some balance
      → c.session.total_deducted_units ≡ some total
      → env.fails refund_incrby ≡ false
      → get c.account_id (handle_hangup env event w).1.redis.credits
        ≡ some (balance +ℤ total -ℤ min_ℤ total (cost c))
  hangup_charges_cost c {balance} {total} held taken up =
      let refunded =
        settle_refunds env c.call_uuid event c.session c.account_id c.rate_per_second c.billsec
          c.duration w up in
      rw (handle_hangup_runs c) (refunded ∙ rw (held, taken) (refund_amount balance total (cost c)))

  -- After the hangup of a call that can be billed its session is gone, whatever fails but the
  -- deletion: the refund, the call record or the consultant's status.
  pub hangup_deletes_session :
      (c : IsBillable env event w)
      → env.fails session_delete ≡ false
      → get c.call_uuid (handle_hangup env event w).1.redis.calls ≡ none
  hangup_deletes_session c up = rw (handle_hangup_runs c) (
      settle_deletes_session env c.call_uuid event c.session c.account_id c.rate_per_second
        c.billsec c.duration w up)

no_session :
    {F : Type 0} (env : Env F) (event : Event) (w : World) {call_uuid : Text}
    → get (codes "Unique-ID") event ≡ some call_uuid
    → get call_uuid w.redis.calls ≡ none
    → (handle_hangup env event w).1 ≡ w
unfolding handle_hangup
no_session env event w named missing = ground arith

-- A hangup of a call that has no session changes neither Redis nor the tables: no call record is
-- written.
pub hangup_without_session :
    {F : Type 0} (env : Env F) (event : Event) (w : World) {call_uuid : Text}
    → get (codes "Unique-ID") event ≡ some call_uuid
    → get call_uuid w.redis.calls ≡ none
    → (handle_hangup env event w).1 ≡ w
hangup_without_session = no_session

int_field-cases :
    (t : Option Text) → (int_field t ≡ err value_error) ⊎ ((n : ℤ) × (int_field t ≡ ok n))
int_field-cases none = inr (pos 0, refl)
int_field-cases (some t) = elim (Option-cases (parse_int t)) [
  | inl bad ↦ inl (rw bad)
  | inr (n, good) ↦ inr (n, rw good)
]

module _ {F : Type 0} (env : Env F) (event : Event) (w : World) {call_uuid : Text}
    {session : Session} (named : get (codes "Unique-ID") event ≡ some call_uuid)
    (nonempty : is_nonempty call_uuid ≡ true) (found : get call_uuid w.redis.calls ≡ some session)
    (done : (handle_hangup env event w).0 ≡ ok tt) where
  handled_session : (hangup_session env call_uuid event (some session) w).0 ≡ ok tt
  unfolding handle_hangup
  handled_session = ground arith

  handled_reachable : env.fails session_hgetall ≡ false
  unfolding handle_hangup
  handled_reachable = ground arith

  -- A hangup that returns was one of a call that can be billed.
  handled_billable : (c : IsBillable env event w) × (c.call_uuid ≡ call_uuid)
  unfolding hangup_session
  handled_billable = elim (Option-cases session.account_id) [
    | inl e ↦ absurd (ground (arith, handled_session))
    | inr (a, ea) ↦ elim (Option-cases session.rate_per_second) [
      | inl e ↦ absurd (ground (arith, handled_session))
      | inr (r, er) ↦ elim (Option-cases session.rate_per_minute) [
        | inl e ↦ absurd (ground (arith, handled_session))
        | inr (m, em) ↦ elim (int_field-cases (get (codes "variable_billsec") event)) [
          | inl e ↦ absurd (ground (arith, handled_session))
          | inr (b, eb) ↦ elim (int_field-cases (get (codes "variable_duration") event)) [
            | inl e ↦ absurd (ground (arith, handled_session))
            | inr (d, ed) ↦ (
              record {
                call_uuid = call_uuid;
                session = session;
                account_id = a;
                rate_per_second = r;
                rate_per_minute = m;
                billsec = b;
                duration = d;
                named = named;
                nonempty = nonempty;
                reachable = handled_reachable;
                found = found;
                account = ea;
                second_price = er;
                minute_price = em;
                seconds = eb;
                length = ed;
              },
              refl,
            )
          ]
        ]
      ]
    ]
  ]

  handled_deletes : get call_uuid (handle_hangup env event w).1.redis.calls ≡ none
  handled_deletes =
      let (c, same) = handled_billable in
      let (v, _, _, runs) =
        settle_reaches_clean_up env c.call_uuid event c.session c.account_id c.rate_per_second
          c.billsec c.duration w in
      let returned : (clean_up env c.call_uuid c.account_id v).0 ≡ ok tt =
        ap (λ (p : Result (Unit {0}) × World). p.0)
          (sym runs ∙ sym (handle_hangup_runs env event w c))
        ∙ done in
      rw same at (
        hangup_deletes_session env event w c
          (clean_up_deletes env c.call_uuid c.account_id v returned))

module _ {F : Type 0} (env : Env F) (event again : Event) (w : World) where
  hangup_nameless :
      (o : Option Text)
      → get (codes "Unique-ID") again ≡ o
      → get (codes "Unique-ID") event ≡ o
      → (handle_hangup env event w).0 ≡ ok tt
      → (handle_hangup env again (handle_hangup env event w).1).1 ≡ (handle_hangup env event w).1
  hangup_nameless none ea ee done = unfold handle_hangup in ground arith
  hangup_nameless (some []) ea ee done = unfold handle_hangup in ground arith
  hangup_nameless (some (x ∷ u)) ea ee done = elim (Option-cases (get (x ∷ u) w.redis.calls)) [
    | inl missing ↦
        let idle = no_session env event w ee missing in
        no_session env again (handle_hangup env event w).1 ea (rw idle missing)
    | inr (session, found) ↦
        no_session env again (handle_hangup env event w).1 ea
          (handled_deletes env event w ee refl found done)
  ]

  -- Once a hangup has been handled without raising, handling any event with the same Unique-ID right
  -- after it changes neither Redis nor the tables.
  pub hangup_twice :
      get (codes "Unique-ID") again ≡ get (codes "Unique-ID") event
      → (handle_hangup env event w).0 ≡ ok tt
      → (handle_hangup env again (handle_hangup env event w).1).1 ≡ (handle_hangup env event w).1
  hangup_twice same done = hangup_nameless (get (codes "Unique-ID") event) same refl done
