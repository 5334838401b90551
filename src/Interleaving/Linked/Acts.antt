-- ===== src/Interleaving/Linked/Acts.antt =====
-- What the actions do to the rows that the sessions name.
use voip_platform.Base.{
  ℕ, ◌≡◌, refl, ◌⊎◌, inl, inr, true, some, ◌==◌, arith, nat_eq, Bool-cases, Option-cases,
}
use voip_platform.Base.Dict.{get, get-put}
use voip_platform.Base.Text.{Text, text_eq, text_beq_iff}
use voip_platform.Call.{Quote, stub_row, insert_stub}
use voip_platform.Core.{Env, Site, statistics_insert}
use voip_platform.Core.Keeps.{Keeps-at, Keeps-select_one, Keeps-from_redis, Keeps-from_db}
use voip_platform.Core.Monad.{World, M, at, modify_redis}
use voip_platform.Credit.{load_credit_to_redis}
use voip_platform.Credit.Seed.{load_credit_to_redis-Quiet}
use voip_platform.Interleaving.{Action}
use voip_platform.Interleaving.Naming.{Inserted, IsAmong, with_row, MayDo, learn}
use voip_platform.Links.{
  has_row, AllLinked, KeepsLinks, Links-refl, links_preorder, Links-fewer, Links-Quiet,
  Links-remove, Links-expire,
}
use voip_platform.Links.Api.{deduct-Links, with_stub-Links, has_row-last}
use voip_platform.Links.Worker.{links_allows}
use voip_platform.Redis.{Session, update_call, session_or_new}
use voip_platform.Schemas.{CallAuthorizeRequest}

-- The inserted rows are in the table.
abbrev pub AreThere : Inserted → World → Type 0
AreThere known w = (id : ℕ) (u : Text) → IsAmong known id u → has_row id u w.db.statistics ≡ true

named_row :
    (c : Text) (w : World) (id : ℕ)
    → AllLinked w
    → (session_or_new (get c w.redis.calls)).statistics_id ≡ some (some id)
    → has_row id c w.db.statistics ≡ true
named_row c w id linked held = elim (Option-cases (get c w.redis.calls)) [
  | inl missing ↦ absurd (ground (arith, held, missing))
  | inr (s, found) ↦ linked c s id found (ground (arith, held, found))
]

-- A session that names after an update what it named before, or a row that is there.
update-Links :
    (c : Text) (f : Session → Session) (known : Inserted) (w : World)
    → AreThere known w
    → ((s : Session) (id : ℕ)
        → (f s).statistics_id ≡ some (some id)
        → (s.statistics_id ≡ some (some id)) ⊎ IsAmong known id c)
    → KeepsLinks w (modify_redis (update_call c f) w).1
update-Links c f known w there may = record {
  rows = λ id u h. h;
  linked = λ h u s id found held.
      let old = session_or_new (get c w.redis.calls) in
      elim (Bool-cases (c == u)) [
        | inl here ↦
            let e : c ≡ u = (text_beq_iff c u).0 here in
            let same : f old ≡ s = ground (arith, get-put c u (f old) w.redis.calls, found, here) in
            elim (may old id (rw same held)) [
              | inl before ↦ rw e at (named_row c w id h before)
              | inr among ↦ rw e at (there id c among)
            ]
        | inr other ↦
            h u s id (ground (arith, get-put c u (f old) w.redis.calls, found, other)) held
      ];
}

module _ {F : Type 0} (env : Env F) where
  at_Links :
      {B : Type 0} (site : Site) (m : M B) (w : World)
      → KeepsLinks w (m w).1
      → KeepsLinks w (at env site m w).1
  at_Links site m w k = elim (Bool-cases (env.fails site)) [
    | inl down ↦ rw down (Links-refl w)
    | inr up ↦ rw up k
  ]

  insert_Links :
      (body : CallAuthorizeRequest) (q : Quote) (w : World)
      → KeepsLinks w (insert_stub env body q w).1
  unfolding insert_stub
  insert_Links body q w = at_Links statistics_insert _ w (with_stub-Links env body q w)

  pub act_Links :
      {B : Type 0} {m : M B} (act : Action env B m) (known : Inserted) (w : World)
      → AreThere known w
      → MayDo known act
      → KeepsLinks w (m w).1
  act_Links (Action.select site f) known w t d =
      (Keeps-select_one {R = KeepsLinks} env site f).run w
  act_Links (Action.fetch site f) known w t d =
      (Keeps-at {R = KeepsLinks} env site _ (Keeps-from_redis f)).run w
  act_Links (Action.query site f) known w t d =
      (Keeps-at {R = KeepsLinks} env site _ (Keeps-from_db f)).run w
  act_Links (Action.cache site token meta) known w t d =
      (Keeps-at {R = KeepsLinks} env site _
          (record { run = λ v. Links-fewer v _ (λ i u. refl) (λ u s h. h) })).run
        w
  act_Links (Action.seed id c) known w t d =
      (Links-Quiet (load_credit_to_redis env id c) (load_credit_to_redis-Quiet env id c)).run w
  act_Links (Action.deduct id units) known w t d = (deduct-Links env id units).run w
  act_Links (Action.insert body q) known w t d = insert_Links body q w
  act_Links (Action.on_call site u f) known w t d = at_Links site _ w (update-Links u f known w t d)
  act_Links (Action.expire site u seconds) known w t d =
      (Keeps-at {R = KeepsLinks} env site _ (Links-expire u seconds)).run w
  act_Links (Action.finalize site id h e c td cd cause b after rate n) known w t d =
      ((links_allows env).finalize site id h e c td cd cause b after rate n).run w
  act_Links (Action.tracing site id s n i b a) known w t d =
      ((links_allows env).tracing site id s n i b a).run w
  act_Links (Action.connected site id n) known w t d =
      ((links_allows env).connected site id n).run w
  act_Links (Action.status site id s) known w t d = ((links_allows env).status site id s).run w
  act_Links (Action.online site id l) known w t d =
      (Keeps-at {R = KeepsLinks} env site _ ((links_allows env).online id l)).run w
  act_Links (Action.give_back id over) known w t d = ((links_allows env).refund id over).run w
  act_Links (Action.delete site u) known w t d =
      (Keeps-at {R = KeepsLinks} env site _ (Links-remove u)).run w
  act_Links (Action.count site id n) known w t d =
      (Keeps-at {R = KeepsLinks} env site _ ((links_allows env).counted id n)).run w

  inserted_there :
      (body : CallAuthorizeRequest) (q : Quote) (known : Inserted) (w : World)
      → AreThere known w
      → let (r, w1) = insert_stub env body q w in AreThere (with_row body.call_uuid r known) w1
  unfolding insert_stub
  inserted_there body q known w t = elim (Bool-cases (env.fails statistics_insert)) [
    | inl down ↦ rw down t
    | inr up ↦ rw up (λ id u among. elim among [
      | inl same ↦
          rw (← same.0, ← same.1)
            (has_row-last (stub_row env body q w.db.next_statistics_id) w.db.statistics)
      | inr old ↦ (with_stub-Links env body q w).rows id u (t id u old)
    ])
  ]

  -- What is known to be inserted after an action is there.
  pub learned :
      {B : Type 0} {m : M B} (act : Action env B m) (known : Inserted) (w : World)
      → AreThere known w
      → KeepsLinks w (m w).1
      → AreThere (learn known act (m w).0) (m w).1
  learned (Action.insert body q) known w t k = inserted_there body q known w t
  learned (Action.select site f) known w t k = λ id u a. k.rows id u (t id u a)
  learned _ known w t k = λ id u a. k.rows id u (t id u a)
