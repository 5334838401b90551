-- ===== src/Links.antt =====
-- The sessions in Redis against the rows of statistics: what a session's statistics_id names.
pub mod Api
pub mod Worker
use voip_platform.Base.{
  ◌⊎◌, ℕ, ◌≡◌, refl, sym, ◌∙◌, ap, Bool, true, false, false≢true, Option, none, some, List, [], ◌∷◌,
  ◌++◌, arith, ◌==◌, ◌&&◌, ◌||◌, if◌then◌else◌, nat_eq, inl, inr, Bool-cases, Option-cases,
}
use voip_platform.Base.Dict.{Dict, get, put, remove, get-put, get-remove}
use voip_platform.Base.Text.{Text, text_eq, text_beq_iff}
use voip_platform.Core.Keeps.{IsPreorder, Keeps}
use voip_platform.Core.Monad.{World, M, modify_redis}
use voip_platform.Core.Quiet.{Quiet}
use voip_platform.Models.{Statistics}
use voip_platform.Models.Query.{update_where}
use voip_platform.Redis.{Redis, Session, no_fields, expire_call, update_call, session_or_new}

-- A row with this id is there, and is the call's.
unfoldable pub has_row : ℕ → Text → List Statistics → Bool
has_row id u [] = false
has_row id u (r ∷ rows) = r.id == id && r.unique_id == u || has_row id u rows

-- The row that a session names is there, and is the call's.
abbrev pub AllLinked : World → Type 0
AllLinked w =
    (u : Text) (s : Session) (id : ℕ)
    → get u w.redis.calls ≡ some s
    → s.statistics_id ≡ some (some id)
    → has_row id u w.db.statistics ≡ true

pub record KeepsLinks (w w' : World) : Type 0 where
  pub rows :
      (id : ℕ) (u : Text)
      → has_row id u w.db.statistics ≡ true
      → has_row id u w'.db.statistics ≡ true
  pub linked : AllLinked w → AllLinked w'

pub Links-refl : (w : World) → KeepsLinks w w
Links-refl w = record { rows = λ id u h. h; linked = λ h. h }

pub Links-trans : (u v w : World) → KeepsLinks u v → KeepsLinks v w → KeepsLinks u w
Links-trans u v w p q = record {
  rows = λ id c h. q.rows id c (p.rows id c h);
  linked = λ h. q.linked (p.linked h);
}

instance abbrev pub links_preorder : IsPreorder KeepsLinks
links_preorder = record { same = Links-refl; trans = Links-trans }

pub has_row-update :
    (id : ℕ) (u : Text) (p : Statistics → Bool) (f : Statistics → Statistics)
    → ((row : Statistics) → (f row).id ≡ row.id)
    → ((row : Statistics) → (f row).unique_id ≡ row.unique_id)
    → (rows : List Statistics) → has_row id u (update_where p f rows) ≡ has_row id u rows
unfolding has_row update_where
has_row-update id u p f i n [] = refl
has_row-update id u p f i n (r ∷ rows) = ground (arith, i r, n r, has_row-update id u p f i n rows)

pub has_row-append :
    (id : ℕ) (u : Text) (rows more : List Statistics)
    → has_row id u rows ≡ true
    → has_row id u (rows ++ more) ≡ true
unfolding has_row
has_row-append id u [] more h = absurd (false≢true h)
has_row-append id u (r ∷ rows) more h = ground (arith, has_row-append id u rows more)

-- The same rows, and the sessions as they were or gone.
pub Links-fewer :
    (w w' : World)
    → ((id : ℕ) (u : Text) → has_row id u w'.db.statistics ≡ has_row id u w.db.statistics)
    → ((u : Text) (s : Session) → get u w'.redis.calls ≡ some s → get u w.redis.calls ≡ some s)
    → KeepsLinks w w'
Links-fewer w w' rows calls = record {
  rows = λ id u h. rows id u ∙ h;
  linked = λ h u s id found held. rows id u ∙ h u s id (calls u s found) held;
}

pub Links-Quiet : {A : Type 0} (m : M A) → Quiet m → Keeps KeepsLinks m
Links-Quiet m q = record {
  run = λ w.
      let reads = q.run w in
      Links-fewer w (m w).1 (λ id u. rw reads.db refl) (λ u s h. rw reads.calls at h);
}

-- What a session names after an update of other fields, one named before.
named_before :
    (c u : Text) (f : Session → Session) (calls : Dict Text Session) {s : Session} {id : ℕ}
    → ((s : Session) → (f s).statistics_id ≡ s.statistics_id)
    → get u (put c (f (session_or_new (get c calls))) calls) ≡ some s
    → s.statistics_id ≡ some (some id)
    → (t : Session) × (get u calls ≡ some t) × (t.statistics_id ≡ some (some id))
named_before c u f calls {s} same found held = elim (Bool-cases (c == u)) [
  | inl here ↦ elim (Option-cases (get c calls)) [
    | inl missing ↦ absurd (
        ground (
          arith,
          get-put c u (f (session_or_new (get c calls))) calls,
          found,
          held,
          missing,
          same no_fields,
        ))
    | inr (t, there) ↦ (
      t,
      ground (arith, text_beq_iff c u),
      ground
          (arith, get-put c u (f (session_or_new (get c calls))) calls, found, held, there, same t),
    )
  ]
  | inr other ↦
      (s, ground (arith, get-put c u (f (session_or_new (get c calls))) calls, found), held)
]

-- A call's hash is set in fields other than statistics_id.
pub Links-update :
    (c : Text) (f : Session → Session)
    → ((s : Session) → (f s).statistics_id ≡ s.statistics_id)
    → Keeps KeepsLinks (modify_redis (update_call c f))
Links-update c f same = record {
  run = λ w. record {
    rows = λ id u h. h;
    linked = λ h u s id found held.
        let (t, before, names) = named_before c u f w.redis.calls same found held in
        h u t id before names;
  };
}

expire_call-cases :
    (c : Text) (n : ℕ) (r : Redis)
    → (expire_call c n r ≡ r)
      ⊎ (expire_call c n r ≡ update_call c (λ s. record s { ttl = some n }) r)
expire_call-cases c n r = elim (Option-cases (get c r.calls)) [
  | inl missing ↦ inl (ground arith)
  | inr (s, found) ↦ inr (ground arith)
]

-- A time to live names no row.
pub Links-expire : (c : Text) (n : ℕ) → Keeps KeepsLinks (modify_redis (expire_call c n))
Links-expire c n = record {
  run = λ w. elim (expire_call-cases c n w.redis) [
    | inl same ↦ rw same (Links-refl w)
    | inr set ↦ rw set ((Links-update c (λ s. record s { ttl = some n }) (λ s. refl)).run w)
  ];
}

pub Links-remove :
    (c : Text) → Keeps KeepsLinks (modify_redis λ r. record r { calls = remove c r.calls })
Links-remove c = record {
  run = λ w. Links-fewer w _ (λ id u. refl) (λ u s h. grind (arith, get-remove));
}
