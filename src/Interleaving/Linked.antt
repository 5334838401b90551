-- ===== src/Interleaving/Linked.antt =====
-- What the sessions name, over any interleaving of the handlers.
pub mod Acts
use voip_platform.Base.{
  ℕ, ◌≡◌, refl, sym, ◌⊎◌, inl, inr, Bool, true, false, Option, none, some, List, [], ◌∷◌, ◌++◌,
  ◌==◌, arith, nat_eq, Bool-cases, Option-cases, if◌then◌else◌,
}
use voip_platform.Base.Dict.{get, put, get-put}
use voip_platform.Base.Text.{Text, text_eq, text_beq_iff}
use voip_platform.Call.{Quote, stub_row, insert_stub}
use voip_platform.Core.{Env, Site, statistics_insert}
use voip_platform.Core.Coroutine.{Coroutine, finished, awaits}
use voip_platform.Core.Keeps.{Keeps, Keeps-at, Keeps-select_one, Keeps-from_redis, Keeps-from_db}
use voip_platform.Core.Monad.{World, M, Result, ok, err, at, gate, modify_redis}
use voip_platform.Credit.{load_credit_to_redis}
use voip_platform.Credit.Seed.{load_credit_to_redis-Quiet}
use voip_platform.Interleaving.{Action, Handler}
use voip_platform.Interleaving.Api.Naming.{authorize_call-IsSafe}
use voip_platform.Interleaving.Api.Plain.{tick-IsPlain}
use voip_platform.Interleaving.Naming.{
  IsSafe-plain, Inserted, IsAmong, with_row, MayDo, learn, Names, IsSafe,
}
use voip_platform.Interleaving.Schedule.{
  Running, running, Pool, Start, Move, Moves, start, resume, session_expiring, account_expiring,
  stay, move,
}
use voip_platform.Interleaving.Worker.Plain.{dispatch-IsPlain, reconcile-IsPlain}
use voip_platform.Links.{
  has_row, AllLinked, KeepsLinks, Links-refl, links_preorder, Links-fewer, Links-Quiet,
  Links-remove,
}
use voip_platform.Links.Api.{deduct-Links, with_stub, with_stub-Links, has_row-last}
use voip_platform.Links.Worker.{links_allows}
use voip_platform.Redis.{Session, no_fields, update_call, session_or_new}
use voip_platform.Schemas.{CallAuthorizeRequest}
use voip_platform.Interleaving.Linked.Acts.{AreThere, act_Links, learned}

-- A handler that is at work names only rows that it has inserted, which are there.
record IsNamed {F : Type 0} (w : World) (h : Running F) : Type 0 where
  known : Inserted
  there : AreThere known w
  names : Names known h.cut

module _ {F : Type 0} where
  abbrev AllNamed : World → List (Running F) → Type 0
  AllNamed w [] = Unit
  AllNamed w (h ∷ hs) = IsNamed w h × AllNamed w hs

  IsNamed-later : {w w' : World} (h : Running F) → KeepsLinks w w' → IsNamed w h → IsNamed w' h
  IsNamed-later h k n = record {
    known = n.known;
    there = λ id u a. k.rows id u (n.there id u a);
    names = n.names;
  }

  AllNamed-later :
      {w w' : World} (hs : List (Running F)) → KeepsLinks w w' → AllNamed w hs → AllNamed w' hs
  AllNamed-later [] k all = tt
  AllNamed-later (h ∷ hs) k all = (IsNamed-later h k (all.0), AllNamed-later hs k (all.1))

  AllNamed-there :
      {w : World} (before after : List (Running F)) {h : Running F}
      → AllNamed w (before ++ (h ∷ after))
      → IsNamed w h
  AllNamed-there [] after all = all.0
  AllNamed-there (b ∷ before) after all = AllNamed-there before after (all.1)

  AllNamed-step :
      {w w' : World} (before after : List (Running F)) (h : Running F) {h' : Running F}
      → KeepsLinks w w'
      → IsNamed w' h'
      → AllNamed w (before ++ (h ∷ after))
      → AllNamed w' (before ++ (h' ∷ after))
  AllNamed-step [] after h k n all = (n, AllNamed-later after k (all.1))
  AllNamed-step (b ∷ before) after h k n all =
      (IsNamed-later b k (all.0), AllNamed-step before after h k n (all.1))

  from_start :
      (env : Env F) {A : Type 0} {m : M A} (w : World) (c : Handler env m)
      → IsSafe c
      → IsNamed w (running env c)
  from_start env w c safe = record { known = []; there = λ id u a. absurd a; names = safe.names [] }

  started : (w : World) {h : Running F} → Start h → IsNamed w h
  started w (Start.authorizing env body) = from_start env w _ (authorize_call-IsSafe env body)
  started w (Start.ticking env body) =
      from_start env w _
        (IsSafe-plain _ (tick-IsPlain env body.call_uuid body.account_id body.elapsed_seconds))
  started w (Start.handling env event) =
      from_start env w _ (IsSafe-plain _ (dispatch-IsPlain env event))
  started w (Start.recovering env output) =
      from_start env w _ (IsSafe-plain _ (reconcile-IsPlain env output))

  -- The links and the handlers of a pool.
  abbrev IsSound : Pool F → Type 0
  IsSound p = AllLinked p.world × AllNamed p.world p.handlers

  Move-IsSound : {p q : Pool F} → Move p q → IsSound p → IsSound q
  Move-IsSound (start w hs h) (linked, all) = (linked, (started w h, all))
  Move-IsSound (resume env w before after m rest act cut) (linked, all) =
      let n = AllNamed-there before after all in
      let k = act_Links env act n.known w n.there (n.names.0) in
      (
        k.linked linked,
        AllNamed-step before after _ k
            (record {
              known = learn n.known act (m w).0;
              there = learned env act n.known w n.there k;
              names = n.names.1 (m w).0;
            })
            all,
      )
  Move-IsSound (session_expiring u w hs) (linked, all) =
      let k = (Links-remove u).run w in (k.linked linked, AllNamed-later hs k all)
  Move-IsSound (account_expiring t w hs) (linked, all) =
      let k = Links-fewer w _ (λ id u. refl) (λ u s h. h) in
      (k.linked linked, AllNamed-later hs k all)

  Moves-IsSound : {p q : Pool F} → Moves p q → IsSound p → IsSound q
  Moves-IsSound (stay p) s = s
  Moves-IsSound (move first rest) s = Moves-IsSound rest (Move-IsSound first s)

  -- If the row of statistics that any session names is there and has the session's call as its uuid,
  -- and no handler is at work, this is so after any interleaving of authorizations, ticks, ESL
  -- events and recoveries at their awaits, with keys expiring in between, each handler with its own
  -- clock and failures.
  pub Moves-AllLinked :
      (w : World) {q : Pool F}
      → Moves (record { world = w; handlers = [] }) q
      → AllLinked w
      → AllLinked q.world
  Moves-AllLinked w moves linked = (Moves-IsSound moves (linked, tt)).0
