-- ===== src/Interleaving/Api/Owner.antt =====
-- The steps of the authentication on a coherent account cache.
use mathlib.Core.Path.{subst}
use voip_platform.Base.{
  ℕ, ◌≡◌, refl, true, false, Option, none, some, List, [], ◌∷◌, ◌==◌, arith, nat_eq, inl, inr,
  Bool-cases,
}
use voip_platform.Base.Dict.{get, put, get-put}
use voip_platform.Base.Text.{Text, text_eq, text_beq_iff}
use voip_platform.Core.{
  Env, Site, account_get, account_set, customer_select, account_not_found, account_suspended,
}
use voip_platform.Core.Coroutine.{Coroutine-pure, Coroutine-raise, Coroutine-if, Coroutine-or_raise}
use voip_platform.Core.Coroutine.Obeys.{
  OnOk, Obeys, Obeys-if, Obeys-pure, Obeys-raise, Obeys-or_raise, Obeys-act,
}
use voip_platform.Core.Monad.{World, M, pure, raise, at, from_redis, scalar_one_or_none}
use voip_platform.Interleaving.{Action}
use voip_platform.Interleaving.Api.{check_cached-cut, select_customer-cut}
use voip_platform.Interleaving.Caching.{meta_of, IsOwner, IsCoherent, AllCoherent}
use voip_platform.Interleaving.Cuts.{fetch-cut, select_one-cut, cache-cut}
use voip_platform.Models.{Db, CreditsCustomer}
use voip_platform.Models.Keys.{distinct_ids, only_with_id}
use voip_platform.Models.Query.{rows_where}
use voip_platform.Redis.{AccountMeta}

-- `found`, if the query gives one row.
scalar_OnOk :
    {A : Type 0} {P : A → Type 0} (rows : List A)
    → ((a : A) → rows ≡ a ∷ [] → P a)
    → OnOk (λ found. (a : A) → found ≡ some a → P a) (scalar_one_or_none rows)
scalar_OnOk [] h = λ a e. absurd (ground arith)
scalar_OnOk {P} (a ∷ []) h = λ b e. let same : a ≡ b = cc in subst P same (h a refl)
scalar_OnOk (a ∷ b ∷ l) h = tt

-- The entry, if there is one, is coherent.
abbrev pub CachedOk : List CreditsCustomer → Text → Option AccountMeta → Type 0
CachedOk customers code cached =
    (meta : AccountMeta) → cached ≡ some meta → IsCoherent customers code meta

-- The id, if there is one, is the owner's.
abbrev pub IdOk : List CreditsCustomer → Text → Option ℕ → Type 0
IdOk customers code account_id =
    (id : ℕ) → account_id ≡ some id → (c : CreditsCustomer) × (c.id ≡ id) × IsOwner customers code c

-- The customer, if there is one, is the owner.
abbrev pub FoundOk : List CreditsCustomer → Text → Option CreditsCustomer → Type 0
FoundOk customers code found = (c : CreditsCustomer) → found ≡ some c → IsOwner customers code c

module _ {F : Type 0} (env : Env F) (customers : List CreditsCustomer) (code : Text) where
  reads :
      {B : Type 0} (Q : B → Type 0) (site : Site) (m : M B) (w : World)
      → (m w).1 ≡ w
      → AllCoherent customers w
      → OnOk Q (m w).0
      → AllCoherent customers (at env site m w).1 × OnOk Q (at env site m w).0
  reads Q site m w same i q = elim (Bool-cases (env.fails site)) [
    | inl down ↦ rw down (i, tt)
    | inr up ↦ rw (up, same) (i, q)
  ]

  pub fetched :
      Obeys
        (AllCoherent customers)
        (CachedOk customers code)
        (fetch-cut env account_get (λ r. get code r.accounts))
  unfolding fetch-cut
  fetched = Obeys-act (Action.fetch account_get (λ r. get code r.accounts)) (λ w i.
      reads (CachedOk customers code) account_get (from_redis (λ r. get code r.accounts)) w refl i
        (λ meta h. i.1 code meta h))

  pub checked :
      (cached : Option AccountMeta)
      → CachedOk customers code cached
      → Obeys (AllCoherent customers) (IdOk customers code) (check_cached-cut env cached)
  unfolding check_cached-cut
  checked none h = Obeys-pure none (λ id e. absurd (ground arith))
  checked (some meta) h =
      let (c, same, _, owner) = h meta refl in
      let known : IdOk customers code (some meta.id) =
        λ id e. let here : c.id ≡ id = ground (arith, same, e) in (c, here, owner) in
      Obeys-if meta.is_blocked _ _ _ _ (λ _. Obeys-raise account_suspended)
        (λ _.
          Obeys-if meta.is_deleted _ _ _ _ (λ _. Obeys-raise account_not_found)
            (λ _. Obeys-pure (some meta.id) known))

  one_row :
      (rows : Db → List CreditsCustomer)
      → ((w : World)
          → AllCoherent customers w
          → (c : CreditsCustomer) → rows w.db ≡ c ∷ []
          → IsOwner customers code c)
      → Obeys
          (AllCoherent customers)
          (FoundOk customers code)
          (select_one-cut env customer_select rows)
  unfolding select_one-cut
  one_row rows h = Obeys-act (Action.select customer_select rows) (λ w i.
      reads (FoundOk customers code) customer_select (λ v. (scalar_one_or_none (rows v.db), v)) w
        refl i (scalar_OnOk {P = IsOwner customers code} (rows w.db) (h w i)))

  pub selected :
      (account_id : Option ℕ)
      → distinct_ids customers ≡ true
      → IdOk customers code account_id
      → Obeys
          (AllCoherent customers)
          (FoundOk customers code)
          (select_customer-cut env code account_id)
  unfolding select_customer-cut
  selected none d h =
      one_row _ (λ w i c e. let found = rw i.0 at e in (found, only_with_id _ c customers d found))
  selected (some id) d h = one_row _ (λ w i c e.
      let (o, same, owner) = h id refl in
      let found : rows_where (λ k. k.id == id) customers ≡ c ∷ [] = rw i.0 at e in
      let first : o ≡ c = ground (arith, rw same at (owner.1), found) in
      subst (IsOwner customers code) first owner)

  pub owned :
      (found : Option CreditsCustomer)
      → FoundOk customers code found
      → Obeys {Act = Action env}
          (AllCoherent customers)
          (IsOwner customers code)
          (Coroutine-or_raise found account_not_found)
  owned found h = Obeys-or_raise found account_not_found h

  pub unblocked :
      (c : CreditsCustomer)
      → Obeys {Act = Action env}
          (AllCoherent customers)
          (λ _. c.is_blocked ≡ false)
          (Coroutine-if c.is_blocked
            (raise account_suspended)
            (pure tt)
            (Coroutine-raise account_suspended)
            (Coroutine-pure tt))
  unblocked c =
      Obeys-if c.is_blocked _ _ _ _ (λ _. Obeys-raise account_suspended) (λ e. Obeys-pure tt e)

  entry :
      (c : CreditsCustomer)
      → IsOwner customers code c
      → c.is_blocked ≡ false
      → (w : World) → AllCoherent customers w
      → (token : Text) (meta : AccountMeta)
      → get token (put code (meta_of c) w.redis.accounts) ≡ some meta
      → IsCoherent customers token meta
  entry c owner free w i token meta held =
      let puts = get-put code token (meta_of c) w.redis.accounts in
      elim (Bool-cases (code == token)) [
        | inl here ↦
            let e : code ≡ token = (text_beq_iff code token).0 here in
            (
              c,
              ground (arith, puts, held, here),
              free,
              subst (λ t. IsOwner customers t c) (e) owner,
            )
        | inr other ↦ i.1 token meta (ground (arith, puts, held, other))
      ]

  pub stored :
      (c : CreditsCustomer)
      → IsOwner customers code c
      → c.is_blocked ≡ false
      → Obeys (AllCoherent customers) (λ _. Unit) (cache-cut env account_set code (meta_of c))
  unfolding cache-cut
  stored c owner free = Obeys-act (Action.cache account_set code (meta_of c)) (λ w i.
      elim (Bool-cases (env.fails account_set)) [
        | inl down ↦ rw down (i, tt)
        | inr up ↦ rw up ((i.0, λ token meta held. entry c owner free w i token meta held), tt)
      ])
