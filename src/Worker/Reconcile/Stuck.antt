-- ===== src/Worker/Reconcile/Stuck.antt =====
-- Recovery: which sessions it finalizes and which consultants it frees.
use voip_platform.Base.{
  ℕ, ◌≡◌, refl, ◌∙◌, true, not, ◌&&◌, List, [], ◌∷◌, arith, ◌==◌, nat_eq, nat_beq_iff,
  if◌then◌else◌, ◌⊎◌, inl, inr, Bool-cases, ==-refl,
}
use voip_platform.Base.Text.{Text, text_eq, text_beq_iff}
use voip_platform.Base.Dict.{keys}
use voip_platform.Core.{Env, Error}
use voip_platform.Core.Monad.{World, Result, ok, err}
use voip_platform.Models.{Consultant}
use voip_platform.Models.Query.{update_where}
use voip_platform.Worker.Reconcile.{
  contains, orphans, idle_ids, set_online, active_ids, reset_idle, reset_stuck_consultants,
}

-- Recovery finalizes exactly the sessions whose uuid is not among the live ones.
pub orphans_lem :
    (live uuids : List Text) (u : Text)
    → contains (λ a b. a == b) u (orphans live uuids)
      ≡ (contains (λ a b. a == b) u uuids && not (contains (λ a b. a == b) u live))
unfolding contains orphans
orphans_lem live [] u = refl
orphans_lem live (v ∷ uuids) u = elim (Bool-cases (v == u)) [
  | inl same ↦ let e : v ≡ u = (text_beq_iff v u).0 same in ground (arith, orphans_lem live uuids u)
  | inr other ↦ ground (arith, orphans_lem live uuids u)
]

abbrev pub put_online : List ℕ → List Consultant → List Consultant
put_online ids [] = []
put_online ids (c ∷ rows) =
    (if contains (λ a b. a == b) c.id ids then record c { ivr_status = 1 } else c)
    ∷ put_online ids rows

put_online-nil : (rows : List Consultant) → put_online [] rows ≡ rows
unfolding contains
put_online-nil [] = refl
put_online-nil (c ∷ rows) = ground (arith, put_online-nil rows)

put_online-cons :
    (id : ℕ) (ids : List ℕ) (rows : List Consultant)
    → put_online ids (update_where (λ c. c.id == id) (λ c. record c { ivr_status = 1 }) rows)
      ≡ put_online (id ∷ ids) rows
unfolding contains update_where
put_online-cons id ids [] = refl
put_online-cons id ids (c ∷ rows) =
    ground (arith, put_online-cons id ids rows, nat_beq_iff id c.id, nat_beq_iff c.id id)

pub set_online_lem :
    (ids : List ℕ) (rows : List Consultant) → set_online ids rows ≡ put_online ids rows
unfolding set_online
set_online_lem [] rows = rw (put_online-nil rows) refl
set_online_lem (id ∷ ids) rows =
    set_online_lem ids (update_where (λ c. c.id == id) (λ c. record c { ivr_status = 1 }) rows)
    ∙ put_online-cons id ids rows

-- With the idle consultants among `ids` set to online, none is idle.
none_idle :
    (active ids : List ℕ) (rows : List Consultant)
    → ((u : ℕ)
        → contains (λ a b. a == b) u (idle_ids active rows) ≡ true
        → contains (λ a b. a == b) u ids ≡ true)
    → idle_ids active (put_online ids rows) ≡ []
unfolding idle_ids
none_idle active ids [] covers = refl
none_idle active ids (c ∷ rows) covers =
    let b = c.ivr_status == 2 && not (contains (λ a b. a == b) c.id active) in
    elim (Bool-cases b) [
      | inl idle ↦
          let deeper : (u : ℕ)
              → contains (λ a b. a == b) u (idle_ids active rows) ≡ true
              → contains (λ a b. a == b) u ids ≡ true =
            λ u h. covers u (rw idle (unfold contains in ground arith)) in
          let first : contains (λ a b. a == b) c.id ids ≡ true =
            covers c.id (rw idle (unfold contains in ground (arith, ==-refl c.id))) in
          rw first (none_idle active ids rows deeper)
      | inr busy ↦
          let deeper : (u : ℕ)
              → contains (λ a b. a == b) u (idle_ids active rows) ≡ true
              → contains (λ a b. a == b) u ids ≡ true =
            λ u h. covers u (rw busy h) in
          ground (arith, none_idle active ids rows deeper)
    ]

-- No consultant is left busy whom no call holds.
pub stuck_freed :
    (active : List ℕ) (rows : List Consultant)
    → idle_ids active (set_online (idle_ids active rows) rows) ≡ []
stuck_freed active rows =
    rw (set_online_lem (idle_ids active rows) rows)
      (none_idle active (idle_ids active rows) rows (λ u h. h))

pub Result-cases :
    {A : Type 0} (r : Result A) → ((a : A) × (r ≡ ok a)) ⊎ ((e : Error) × (r ≡ err e))
Result-cases (ok a) = inl (a, refl)
Result-cases (err e) = inr (e, refl)

module _ {F : Type 0} (env : Env F) where
  pub active_ids_same : (uuids : List Text) (w : World) → (active_ids env uuids w).1 ≡ w
  unfolding active_ids
  active_ids_same [] w = refl
  active_ids_same (u ∷ uuids) w = ground (arith, active_ids_same uuids w)

  pub reset_stuck_redis : (w : World) → (reset_stuck_consultants env w).1.redis ≡ w.redis
  unfolding reset_stuck_consultants reset_idle
  reset_stuck_redis w = grind (arith, active_ids_same)

  pub reset_idle_lem :
      (ids : List ℕ) (w : World)
      → (reset_idle env ids w).0 ≡ ok tt
      → (reset_idle env ids w).1.db.consultants ≡ set_online ids w.db.consultants
  unfolding reset_idle set_online
  reset_idle_lem [] w h = refl
  reset_idle_lem (id ∷ ids) w h = ground arith

  -- If the reset of stuck consultants returns, then the ids of the consultants of all calls in Redis
  -- were read, and afterwards no consultant is busy whose id is not among them.
  pub reset_stuck_frees :
      (w : World)
      → (reset_stuck_consultants env w).0 ≡ ok tt
      → (active : List ℕ) × ((active_ids env (keys w.redis.calls) w).0 ≡ ok active)
        × (idle_ids active (reset_stuck_consultants env w).1.db.consultants ≡ [])
  unfolding reset_stuck_consultants
  reset_stuck_frees w h = elim (Result-cases (active_ids env (keys w.redis.calls) w).0) [
    | inl (active, e) ↦ (
      active,
      e,
      ground (
        arith,
        active_ids_same (keys w.redis.calls) w,
        reset_idle_lem (idle_ids active w.db.consultants) w,
        stuck_freed active w.db.consultants,
      ),
    )
    | inr (x, e) ↦ absurd (ground (arith, active_ids_same (keys w.redis.calls) w))
  ]
