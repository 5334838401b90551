-- ===== src/Interleaving/Naming.antt =====
-- Which rows the sessions name that a handler writes: only those that it has itself inserted, and
-- those that the session named before.
use voip_platform.Base.{ℕ, ◌≡◌, sym, ◌∙◌, ◌⊎◌, inl, Bool, true, false, some, List, [], ◌∷◌, nat_eq}
use voip_platform.Base.Text.{Text, text_eq}
use voip_platform.Core.{Env, Site}
use voip_platform.Core.Coroutine.{finished, awaits, Coroutine-act, Coroutine-if, Coroutine-bind}
use voip_platform.Core.Coroutine.AllActs.{Each}
use voip_platform.Core.Monad.{M, Result, ok, err}
use voip_platform.Interleaving.{Action, Handler}
use voip_platform.Interleaving.Cuts.{cache-cut}
use voip_platform.Interleaving.Plain.{Plain, IsPlain, plain_rules}
use voip_platform.Redis.{Session, AccountMeta}

-- The ids of the rows that a handler has inserted, with the calls' uuids.
abbrev pub Inserted : Type 0
Inserted = List (ℕ × Text)

abbrev pub IsAmong : Inserted → ℕ → Text → Type 0
IsAmong [] id u = ⊥
IsAmong ((i, v) ∷ known) id u = ((i ≡ id) × (v ≡ u)) ⊎ IsAmong known id u

abbrev pub with_row : Text → Result ℕ → Inserted → Inserted
with_row u (ok id) known = (id, u) ∷ known
with_row u (err e) known = known

module _ {F : Type 0} {env : Env F} where
  -- What the handler may do, having inserted these rows.
  abbrev pub MayDo : {B : Type 0} {m : M B} → Inserted → Action env B m → Type 0
  MayDo known (Action.on_call site u f) =
      (s : Session) (id : ℕ)
      → (f s).statistics_id ≡ some (some id)
      → (s.statistics_id ≡ some (some id)) ⊎ IsAmong known id u
  MayDo known _ = Unit

  -- What it has inserted after an action.
  abbrev pub learn : {B : Type 0} {m : M B} → Inserted → Action env B m → Result B → Inserted
  learn known (Action.insert body q) r = with_row body.call_uuid r known
  learn known _ r = known

  abbrev pub Names : {A : Type 0} {m : M A} → Inserted → Handler env m → Type 0
  Names known (finished r) = Unit
  Names {A} known (awaits {B} m rest act cut) =
      MayDo known act × ((r : Result B) → Names (learn known act r) (cut r))

  -- Whatever it has inserted.
  pub record IsSafe {A : Type 0} {m : M A} (c : Handler env m) : Type 0 where
    pub names : (known : Inserted) → Names known c

  Names-bind :
      {A B : Type 0} {m : M A} (f : A → M B) (known : Inserted) (c : Handler env m)
      (k : (a : A) → Handler env (f a))
      → Names known c
      → ((a : A) → IsSafe (k a))
      → Names known (Coroutine-bind m f c k)
  unfolding Coroutine-bind
  Names-bind f known (finished (ok a)) k h s = (s a).names known
  Names-bind f known (finished (err e)) k h s = tt
  Names-bind f known (awaits m rest act cut) k h s =
      (h.0, λ r. Names-bind f (learn known act r) (cut r) k (h.1 r) s)

  -- Where it has inserted the row.
  pub record IsSafeAfter (id : ℕ) (u : Text) {A : Type 0} {m : M A} (c : Handler env m)
      : Type 0 where
    pub names : (known : Inserted) → IsAmong known id u → Names known c

  pub IsSafeAfter-bind :
      {A B : Type 0} {m : M A} {f : A → M B} {id : ℕ} {u : Text} (c : Handler env m)
      (k : (a : A) → Handler env (f a))
      → IsSafeAfter id u c
      → ((a : A) → IsSafe (k a))
      → IsSafeAfter id u (Coroutine-bind m f c k)
  IsSafeAfter-bind {f} c k h s = record {
    names = λ known there. Names-bind f known c k (h.names known there) s;
  }

  Plain-may :
      {B : Type 0} {m : M B} (known : Inserted) (act : Action env B m)
      → Plain B m act
      → MayDo known act
  Plain-may known (Action.on_call site u f) same = λ s id h. inl (sym (same s) ∙ h)
  Plain-may known _ p = tt

  Names-Plain :
      {A : Type 0} {m : M A} (known : Inserted) (c : Handler env m) → Each Plain c → Names known c
  Names-Plain known (finished r) h = tt
  Names-Plain known (awaits m rest act cut) h =
      (Plain-may known act (h.0), λ r. Names-Plain (learn known act r) (cut r) (h.1 r))

  pub IsSafe-plain : {A : Type 0} {m : M A} (c : Handler env m) → IsPlain c → IsSafe c
  IsSafe-plain c h = record { names = λ known. Names-Plain known c h.each }

  pub IsSafe-bind :
      {A B : Type 0} {m : M A} {f : A → M B} (c : Handler env m) (k : (a : A) → Handler env (f a))
      → IsSafe c
      → ((a : A) → IsSafe (k a))
      → IsSafe (Coroutine-bind m f c k)
  IsSafe-bind {f} c k h s = record { names = λ known. Names-bind f known c k (h.names known) s }

  pub IsSafe-if :
      {A : Type 0} (b : Bool) (m n : M A) (c : Handler env m) (d : Handler env n)
      → IsSafe c
      → IsSafe d
      → IsSafe (Coroutine-if b m n c d)
  unfolding Coroutine-if
  IsSafe-if true m n c d h k = h
  IsSafe-if false m n c d h k = k

  pub IsSafe-cache :
      (site : Site) (token : Text) (meta : AccountMeta) → IsSafe (cache-cut env site token meta)
  unfolding cache-cut Coroutine-act
  IsSafe-cache site token meta = record { names = λ known. (tt, λ r. tt) }

pub ruleset safe_rules = (plain_rules, IsSafe-plain, IsSafe-bind, IsSafe-if, IsSafe-cache)
