-- ===== src/Solvency.antt =====
-- Balances against zero: the relation between worlds, and the worker's handlers.
pub mod Api
use voip_platform.Base.{
  ℕ, ◌≡◌, refl, Bool, true, false, Option, none, some, List, [], ◌∷◌, arith, nat_eq, ◌==◌,
  if◌then◌else◌, inl, inr, Bool-cases, nat_beq_iff,
}
use voip_platform.Base.Dict.{get, put, get-put}
use voip_platform.Base.Int.{ℤ, pos, ◌+ℤ◌, ◌≤ℤ◌, ltb_ℤ, int_laws}
use voip_platform.Base.Text.{Text}
use voip_platform.Core.{Env, Site, refund_incrby}
use voip_platform.Core.Keeps.{IsPreorder, Keeps, Keeps-gate}
use voip_platform.Core.Monad.{World, M, at, modify_redis}
use voip_platform.Core.Quiet.{Quiet}
use voip_platform.Worker.Answer.{Event}
use voip_platform.Worker.Cdr.{
  finalize_statistics, append_tracing, set_connected_time, update_consultant_status,
}
use voip_platform.Worker.Hangup.{refund, incrby}
use voip_platform.Worker.Loop.{dispatch}
use voip_platform.Worker.Reconcile.{reconcile_on_startup}
use voip_platform.Worker.Writes.{AllowsWrites, Keeps-attempt, dispatch-Keeps, reconcile-Keeps}

-- Redis holds a balance for the account, and it is not below zero.
abbrev pub IsSolvent : ℕ → World → Type 0
IsSolvent k w = (b : ℤ) × (get k w.redis.credits ≡ some b) × (pos 0 ≤ℤ b)

abbrev pub StaysSolvent : ℕ → World → World → Type 0
StaysSolvent k w w' = IsSolvent k w → IsSolvent k w'

abbrev pub solvent_preorder : (k : ℕ) → IsPreorder (StaysSolvent k)
solvent_preorder k = record { same = λ w s. s; trans = λ u v w p q s. q (p s) }

pub Solvent-Quiet : {A : Type 0} (k : ℕ) (m : M A) → Quiet m → Keeps (StaysSolvent k) m
Solvent-Quiet k m quiet = record {
  run = λ w (b, held, positive). (b, (quiet.run w).kept k b held, positive);
}

module _ {F : Type 0} (env : Env F) (k : ℕ) where
  incrby-Solvent :
      (id : ℕ) (over : ℤ)
      → ltb_ℤ (pos 0) over ≡ true
      → Keeps (StaysSolvent k) (modify_redis (incrby env id over))
  incrby-Solvent id over positive = record {
    run = λ w (b, held, p). elim (Bool-cases (id == k)) [
      | inl same ↦ (b +ℤ over, grind (arith, get-put, nat_beq_iff id k), grind int_laws)
      | inr other ↦ (b, grind (arith, get-put), p)
    ];
  }

  at_Solvent :
      {A : Type 0} (site : Site) (m : M A)
      → ((w : World) → StaysSolvent k w (m w).1)
      → Keeps (StaysSolvent k) (at env site m)
  at_Solvent site m keep =
      Keeps-gate ⦃p = solvent_preorder k⦄ (env.fails site) m (record { run = keep })

  refund-Solvent : (id : ℕ) (over : ℤ) → Keeps (StaysSolvent k) (refund env id over)
  unfolding refund
  refund-Solvent id over = elim (Bool-cases (ltb_ℤ (pos 0) over)) [
    | inl positive ↦ rw positive (
        Keeps-attempt (at env refund_incrby (modify_redis (incrby env id over))) (
          Keeps-gate ⦃p = solvent_preorder k⦄ (env.fails refund_incrby)
            (modify_redis (incrby env id over)) (incrby-Solvent id over positive)))
    | inr nothing ↦ rw nothing (record { run = λ w s. s })
  ]

  pub solvent_allows : AllowsWrites (StaysSolvent k) env
  solvent_allows = record {
    finalize = λ site id h e c td cd cause b after rate t.
        unfold finalize_statistics in at_Solvent site _ (λ w s. s);
    tracing = λ site id st t i b a. unfold append_tracing in at_Solvent site _ (λ w s. s);
    connected = λ site id t. unfold set_connected_time in at_Solvent site _ (λ w s. s);
    status = λ site id st. unfold update_consultant_status in at_Solvent site _ (λ w s. s);
    online = λ id l. record { run = λ w s. s };
    refund = refund-Solvent;
    answered = λ u f. record { run = λ w s. s };
    deleted = λ u. record { run = λ w s. s };
    counted = λ id n. record { run = λ w s. s };
  }

  pub dispatch-Solvent : (event : Event) → Keeps (StaysSolvent k) (dispatch env event)
  dispatch-Solvent = dispatch-Keeps ⦃p = solvent_preorder k⦄ env solvent_allows

  pub reconcile-Solvent : (output : Text) → Keeps (StaysSolvent k) (reconcile_on_startup env output)
  reconcile-Solvent = reconcile-Keeps ⦃p = solvent_preorder k⦄ env solvent_allows
