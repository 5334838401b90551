-- ===== src/Worker/Reconcile/Again.antt =====
-- Recovery, run twice.
use voip_platform.Base.{
  ℕ, ◌≡◌, ◌≢◌, refl, sym, ap, ◌∙◌, true, false, none, some, List, [], ◌∷◌, arith, ◌==◌, nat_eq, inl,
  inr, Bool-cases, Option-cases, ==-refl,
}
use voip_platform.Base.Dict.{Dict, get, keys}
use voip_platform.Base.Text.{Text, text_eq, is_nonempty}
use voip_platform.Core.{Env, show_calls, session_keys, session_hgetall, session_delete}
use voip_platform.Core.Monad.{World, Result, ok}
use voip_platform.Redis.{Session}
use voip_platform.Worker.Hangup.{handle_hangup}
use voip_platform.Worker.Reconcile.{
  contains, orphans, synthetic_event, live_or_none, active_ids, idle_ids, reset_idle,
  reset_stuck_consultants, finalize_orphans, reconcile_sessions, reconcile_on_startup,
}
use voip_platform.Worker.Reconcile.Orphans.{IsComplete, recovery_ends_orphan, stays_ended}
use voip_platform.Worker.Reconcile.Stuck.{
  active_ids_same, reset_stuck_redis, reset_stuck_frees, Result-cases,
}

module _ {F : Type 0} (env : Env F) where
  -- The ids are read from Redis alone.
  active_ids_redis :
      (uuids : List Text) (v w : World)
      → v.redis ≡ w.redis
      → (active_ids env uuids v).0 ≡ (active_ids env uuids w).0
  unfolding active_ids
  active_ids_redis [] v w same = refl
  active_ids_redis (u ∷ uuids) v w same = ground (
    arith,
    active_ids_redis uuids v w same,
    active_ids_same env uuids v,
    active_ids_same env uuids w,
  )

  -- Nothing is reset where no consultant is stuck, or where the ids cannot be read.
  none_stuck :
      (w : World)
      → ((active : List ℕ)
          → (active_ids env (keys w.redis.calls) w).0 ≡ ok active
          → idle_ids active w.db.consultants ≡ [])
      → (reset_stuck_consultants env w).1 ≡ w
  unfolding reset_stuck_consultants reset_idle
  none_stuck w none_idle = elim (Result-cases (active_ids env (keys w.redis.calls) w).0) [
    | inl (active, e) ↦
        let nobody = none_idle active e in
        ground (arith, active_ids_same env (keys w.redis.calls) w)
    | inr (x, e) ↦ ground (arith, active_ids_same env (keys w.redis.calls) w)
  ]

module _ {F : Type 0} (env again : Env F) where
  -- The ids do not depend on what fails, as long as they are read.
  active_ids_agree :
      (uuids : List Text) (w : World) {a b : List ℕ}
      → (active_ids env uuids w).0 ≡ ok a
      → (active_ids again uuids w).0 ≡ ok b
      → b ≡ a
  unfolding active_ids
  active_ids_agree [] w ea eb = ground arith
  active_ids_agree (u ∷ uuids) w {a} {b} ea eb = elim (Result-cases (active_ids env uuids w).0) [
    | inr (x, e) ↦ absurd (ground (arith, active_ids_same env uuids w))
    | inl (more, e) ↦ elim (Result-cases (active_ids again uuids w).0) [
      | inr (x, e') ↦ absurd (ground (arith, active_ids_same again uuids w))
      | inl (more', e') ↦ ground (
        arith,
        active_ids_agree uuids w e e',
        active_ids_same env uuids w,
        active_ids_same again uuids w,
      )
    ]
  ]

  reset_again :
      (w : World)
      → (reset_stuck_consultants env w).0 ≡ ok tt
      → let w1 = (reset_stuck_consultants env w).1 in (reset_stuck_consultants again w1).1 ≡ w1
  reset_again w done =
      let (active, read, none_idle) = reset_stuck_frees env w done in
      let v = (reset_stuck_consultants env w).1 in
      let same : v.redis ≡ w.redis = reset_stuck_redis env w in
      let reread : (active_ids env (keys v.redis.calls) v).0 ≡ ok active =
        rw same (active_ids_redis env (keys w.redis.calls) v w same ∙ read) in
      none_stuck again v (λ b e. rw (active_ids_agree (keys v.redis.calls) v reread e) none_idle)

orphans-nil :
    (live uuids : List Text)
    → ((u : Text)
        → contains (λ a b. a == b) u uuids ≡ true
        → contains (λ a b. a == b) u live ≡ true)
    → orphans live uuids ≡ []
unfolding orphans contains
orphans-nil live [] alive = refl
orphans-nil live (u ∷ uuids) alive =
    let deeper : (v : Text)
        → contains (λ a b. a == b) v uuids ≡ true
        → contains (λ a b. a == b) v live ≡ true =
      λ v listed. alive v (ground arith) in
    rw (alive u (ground (arith, ==-refl u))) (orphans-nil live uuids deeper)

get-keys :
    {V : Type 0} (k : Text) (d : Dict Text V)
    → contains (λ a b. a == b) k (keys d) ≡ true
    → get k d ≢ none
unfolding contains get keys
get-keys k [] listed = absurd (ground arith)
get-keys k ((j, v) ∷ d) listed = elim (Bool-cases (j == k)) [
  | inl same ↦ ground arith
  | inr other ↦ ground (arith, get-keys k d)
]

-- Every session is one that a hangup can settle, under a uuid that is not empty.
abbrev pub AllComplete : World → Type 0
AllComplete w =
    (u : Text) (session : Session)
    → get u w.redis.calls ≡ some session
    → IsComplete session × (is_nonempty u ≡ true)

module _ {F : Type 0} (env : Env F) (output : Text) where
  abbrev alive : List Text
  alive = live_or_none (env.fails show_calls) output

  finalize_returns : (uuids : List Text) (w : World) → (finalize_orphans env uuids w).0 ≡ ok tt
  unfolding finalize_orphans
  finalize_returns [] w = refl
  finalize_returns (u ∷ uuids) w =
      ground (arith, finalize_returns uuids (handle_hangup env (synthetic_event u) w).1)

  -- A recovery that reads the keys ends with the reset of stuck consultants.
  ends_with_reset :
      (uuids : List Text) (w : World)
      → reconcile_sessions env output uuids w
        ≡ reset_stuck_consultants env (finalize_orphans env (orphans alive uuids) w).1
  unfolding reconcile_sessions
  ends_with_reset [] w = unfold finalize_orphans orphans in refl
  ends_with_reset (u ∷ uuids) w = ground (arith, finalize_returns (orphans alive (u ∷ uuids)) w)

  abbrev finalized : World → World
  finalized w = (finalize_orphans env (orphans alive (keys w.redis.calls)) w).1

  recovery_runs :
      (w : World)
      → env.fails session_keys ≡ false
      → reconcile_on_startup env output w ≡ reset_stuck_consultants env (finalized w)
  unfolding reconcile_on_startup
  recovery_runs w scanned = ground (arith, ends_with_reset (keys w.redis.calls) w)

  only_alive :
      (w : World)
      → ((u : Text) → contains (λ a b. a == b) u alive ≡ false → get u w.redis.calls ≡ none)
      → orphans alive (keys w.redis.calls) ≡ []
  only_alive w gone = orphans-nil alive (keys w.redis.calls) (λ u listed.
      elim (Bool-cases (contains (λ a b. a == b) u alive)) [
        | inl live ↦ live
        | inr dead ↦ absurd (get-keys u w.redis.calls listed (gone u dead))
      ])

  dead_gone :
      (w : World) (u : Text)
      → AllComplete w
      → env.fails session_keys ≡ false
      → env.fails session_hgetall ≡ false
      → env.fails session_delete ≡ false
      → contains (λ a b. a == b) u alive ≡ false
      → get u (reconcile_on_startup env output w).1.redis.calls ≡ none
  dead_gone w u complete scanned reachable up dead = elim (Option-cases (get u w.redis.calls)) [
    | inl missing ↦
        rw (recovery_runs w scanned, reset_stuck_redis env (finalized w))
          (stays_ended env u (orphans alive (keys w.redis.calls)) w missing)
    | inr (session, found) ↦
        let (whole, nonempty) = complete u session found in
        recovery_ends_orphan env u output w dead found whole nonempty scanned reachable up
  ]

  scans :
      (w : World) → (reconcile_on_startup env output w).0 ≡ ok tt → env.fails session_keys ≡ false
  unfolding reconcile_on_startup
  scans w done = ground arith

  nothing_left :
      (w : World)
      → orphans alive (keys w.redis.calls) ≡ []
      → (reset_stuck_consultants env w).1 ≡ w
      → (reconcile_on_startup env output w).1 ≡ w
  unfolding finalize_orphans
  nothing_left w rest freed = elim (Bool-cases (env.fails session_keys)) [
    | inl down ↦ unfold reconcile_on_startup in ground arith
    | inr scanned ↦
        let idle : finalized w ≡ w = rw (finalized, rest) refl in
        ap (λ (p : Result (Unit {0}) × World). p.1) (recovery_runs w scanned)
        ∙ ap (λ v. (reset_stuck_consultants env v).1) idle
        ∙ freed
  ]

module _ {F : Type 0} (env again : Env F) (output : Text) where
  -- After a recovery that returned, another one right after it, with the same output of `show
  -- calls`, changes neither Redis nor the tables, whatever fails in it, but for `show calls`, which
  -- fails in both or in neither. Every session in Redis has an account and both prices, and a uuid
  -- that is not empty, and the first one's reads of the sessions and its deletions do not fail;
  -- anything else may, as long as it returns.
  pub recovery_twice :
      (w : World)
      → AllComplete w
      → (reconcile_on_startup env output w).0 ≡ ok tt
      → env.fails session_hgetall ≡ false
      → env.fails session_delete ≡ false
      → again.fails show_calls ≡ env.fails show_calls
      → let once = (reconcile_on_startup env output w).1 in
        (reconcile_on_startup again output once).1 ≡ once
  recovery_twice w complete done reachable up same_live =
      let scanned = scans env output w done in
      let once = (reconcile_on_startup env output w).1 in
      let runs = recovery_runs env output w scanned in
      let reset : once ≡ (reset_stuck_consultants env (finalized env output w)).1 =
        ap (λ (p : Result (Unit {0}) × World). p.1) runs in
      let returned : (reset_stuck_consultants env (finalized env output w)).0 ≡ ok tt =
        ap (λ (p : Result (Unit {0}) × World). p.0) (sym runs) ∙ done in
      let rest : orphans (alive env output) (keys once.redis.calls) ≡ [] =
        only_alive env output once
          (λ u dead. dead_gone env output w u complete scanned reachable up dead) in
      nothing_left again output once (rw same_live rest) (
        ap (λ v. (reset_stuck_consultants again v).1) reset
        ∙ reset_again env again (finalized env output w) returned
        ∙ sym reset)
