-- ===== src/Interleaving/Caching.antt =====
-- The account cache against the table of customers, over the actions of the handlers.
use voip_platform.Base.{
  ℕ, ◌≡◌, refl, ◌∙◌, false, not, ◌&&◌, some, List, [], ◌∷◌, ◌==◌, arith, nat_eq,
}
use voip_platform.Base.Dict.{get}
use voip_platform.Base.Int.{ℤ}
use voip_platform.Base.Text.{Text, text_eq}
use voip_platform.Call.{insert_stub}
use voip_platform.Core.{Env, Site, statistics_insert}
use voip_platform.Core.Coroutine.AllActs.{AllActs, AllActs-map}
use voip_platform.Core.Coroutine.Obeys.{Obeys, Obeys-Each}
use voip_platform.Core.Keeps.{IsPreorder, Keeps-at, Keeps-select_one}
use voip_platform.Core.Monad.{World, M, at}
use voip_platform.Credit.{atomic_deduct_credit, load_credit_to_redis}
use voip_platform.Decimal.{Decimal}
use voip_platform.Interleaving.{Action, Handler}
use voip_platform.Interleaving.Plain.{Plain, IsPlain}
use voip_platform.Models.{CreditsCustomer}
use voip_platform.Models.Query.{rows_where}
use voip_platform.Redis.{AccountMeta}
use voip_platform.Worker.Cdr.{
  finalize_statistics, append_tracing, set_connected_time, update_consultant_status,
}
use voip_platform.Worker.Hangup.{refund}

-- What the cache holds of a customer.
abbrev pub meta_of : CreditsCustomer → AccountMeta
meta_of c = record {
  id = c.id;
  credit_code = c.credit_code;
  currency_code = c.currency_code;
  is_blocked = c.is_blocked;
  is_deleted = c.is_deleted;
  ttl = 300;
}

-- The customer is the only one that the PIN names, and the only one with its id.
abbrev pub IsOwner : List CreditsCustomer → Text → CreditsCustomer → Type 0
IsOwner customers code c =
    (rows_where (λ k. k.credit_code == code && not k.is_deleted) customers ≡ c ∷ [])
    × (rows_where (λ k. k.id == c.id) customers ≡ c ∷ [])

-- An entry is that of its PIN's customer, who is not blocked.
abbrev pub IsCoherent : List CreditsCustomer → Text → AccountMeta → Type 0
IsCoherent customers code meta =
    (c : CreditsCustomer) × (meta ≡ meta_of c) × (c.is_blocked ≡ false) × IsOwner customers code c

-- The table is this one, and the cache agrees with it.
abbrev pub AllCoherent : List CreditsCustomer → World → Type 0
AllCoherent customers w =
    (w.db.customers ≡ customers)
    × ((code : Text) (meta : AccountMeta)
        → get code w.redis.accounts ≡ some meta
        → IsCoherent customers code meta)

-- Neither the cache nor the customers change.
abbrev Undisturbed : World → World → Type 0
Undisturbed w w' = (w'.redis.accounts ≡ w.redis.accounts) × (w'.db.customers ≡ w.db.customers)

abbrev undisturbed_preorder : IsPreorder Undisturbed
undisturbed_preorder = record {
  same = λ w. (refl, refl);
  trans = λ u v w p q. (q.0 ∙ p.0, q.1 ∙ p.1);
}

pub Undisturbed-coherent :
    (customers : List CreditsCustomer) (w w' : World)
    → Undisturbed w w'
    → AllCoherent customers w
    → AllCoherent customers w'
Undisturbed-coherent customers w w' (accounts, rows) (same, coherent) =
    (rows ∙ same, λ code meta held. coherent code meta (rw accounts at held))

module _ {F : Type 0} {env : Env F} where
  abbrev pub Cacheless : (B : Type 0) (m : M B) → Action env B m → Type 0
  Cacheless B m (Action.cache site token meta) = ⊥
  Cacheless B m _ = Unit

  Plain-Cacheless :
      (B : Type 0) (m : M B) (act : Action env B m) → Plain B m act → Cacheless B m act
  Plain-Cacheless B m (Action.cache site token meta) p = p
  Plain-Cacheless B m _ p = tt

module _ {F : Type 0} (env : Env F) where
  aside :
      {B : Type 0} (site : Site) (m : M B)
      → ((w : World) → Undisturbed w (m w).1)
      → (w : World) → Undisturbed w (at env site m w).1
  aside site m keep = (Keeps-at ⦃p = undisturbed_preorder⦄ env site m (record { run = keep })).run

  deduct_aside :
      (id : ℕ) (units : ℤ) (w : World) → Undisturbed w (atomic_deduct_credit env id units w).1
  unfolding atomic_deduct_credit
  deduct_aside id units w = ground arith

  seed_aside :
      (id : ℕ) (c : Decimal) (w : World) → Undisturbed w (load_credit_to_redis env id c w).1
  unfolding load_credit_to_redis
  seed_aside id c w = ground arith

  refund_aside : (id : ℕ) (over : ℤ) (w : World) → Undisturbed w (refund env id over w).1
  unfolding refund
  refund_aside id over w = ground arith

  cacheless_aside :
      (B : Type 0) (m : M B) (act : Action env B m)
      → Cacheless B m act
      → (w : World) → Undisturbed w (m w).1
  cacheless_aside B m (Action.select site f) p =
      (Keeps-select_one ⦃p = undisturbed_preorder⦄ env site f).run
  cacheless_aside B m (Action.fetch site f) p = aside site _ (λ v. (refl, refl))
  cacheless_aside B m (Action.query site f) p = aside site _ (λ v. (refl, refl))
  cacheless_aside B m (Action.cache site token meta) p = absurd p
  cacheless_aside B m (Action.seed id c) p = seed_aside id c
  cacheless_aside B m (Action.deduct id units) p = deduct_aside id units
  cacheless_aside B m (Action.insert body q) p =
      unfold insert_stub in aside statistics_insert _ (λ v. (refl, refl))
  cacheless_aside B m (Action.on_call site u f) p = aside site _ (λ v. (refl, refl))
  cacheless_aside B m (Action.expire site u n) p = aside site _ (λ v. (refl, refl))
  cacheless_aside B m (Action.finalize site id h e c td cd cause b after rate n) p =
      unfold finalize_statistics in aside site _ (λ v. (refl, refl))
  cacheless_aside B m (Action.tracing site id s n i b a) p =
      unfold append_tracing in aside site _ (λ v. (refl, refl))
  cacheless_aside B m (Action.connected site id n) p =
      unfold set_connected_time in aside site _ (λ v. (refl, refl))
  cacheless_aside B m (Action.status site id s) p =
      unfold update_consultant_status in aside site _ (λ v. (refl, refl))
  cacheless_aside B m (Action.online site id l) p = aside site _ (λ v. (refl, refl))
  cacheless_aside B m (Action.give_back id over) p = refund_aside id over
  cacheless_aside B m (Action.delete site u) p = aside site _ (λ v. (refl, refl))
  cacheless_aside B m (Action.count site id n) p = aside site _ (λ v. (refl, refl))

  -- A handler that leaves the cache alone keeps it coherent.
  pub Obeys-Cacheless :
      (customers : List CreditsCustomer) {A : Type 0} {m : M A} (c : Handler env m)
      → AllActs Cacheless c
      → Obeys (AllCoherent customers) (λ _. Unit) c
  Obeys-Cacheless customers c h =
      Obeys-Each
        (λ B m act p w i. Undisturbed-coherent customers w (m w).1 (cacheless_aside B m act p w) i)
        c h

  pub Obeys-plain :
      (customers : List CreditsCustomer) {A : Type 0} {m : M A} (c : Handler env m)
      → IsPlain c
      → Obeys (AllCoherent customers) (λ _. Unit) c
  Obeys-plain customers c h = Obeys-Cacheless customers c (AllActs-map Plain-Cacheless c h)
