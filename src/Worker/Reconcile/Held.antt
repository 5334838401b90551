-- ===== src/Worker/Reconcile/Held.antt =====
-- Which consultants the reset of stuck consultants sets online, by the sessions in Redis.
use voip_platform.Base.{
  ℕ, ◌≡◌, ◌⊎◌, refl, ap, true, false, not, ◌&&◌, some, none, List, [], ◌∷◌, ◌++◌, ◌==◌, arith,
  nat_eq, nat_beq_iff, inl, inr, Bool-cases, Option, Option-cases, ==-refl,
}
use voip_platform.Base.Dict.{get, keys}
use voip_platform.Base.Text.{Text, text_eq, text_beq_iff}
use voip_platform.Core.{Env}
use voip_platform.Core.Monad.{World, ok}
use voip_platform.Models.{Consultant}
use voip_platform.Redis.{Session}
use voip_platform.Worker.Reconcile.{
  contains, idle_ids, set_online, add_active, active_ids, reset_stuck_consultants,
}
use voip_platform.Worker.Reconcile.Orphans.{contains-keys}
use voip_platform.Worker.Reconcile.Stuck.{
  put_online, set_online_lem, active_ids_same, reset_idle_lem, Result-cases,
}

-- A session in Redis is of a call with the consultant.
abbrev pub IsHeld : ℕ → World → Type 0
IsHeld id w =
    (u : Text) × (session : Session) × (get u w.redis.calls ≡ some session)
    × (session.consultant_id ≡ some (some id))

-- A row with the id says that the consultant is busy.
pub record IsBusy (id : ℕ) (rows : List Consultant) : Type 0 where
  pub row : Consultant
  pub before : List Consultant
  pub after : List Consultant
  pub listed : rows ≡ before ++ (row ∷ after)
  pub named : row.id ≡ id
  pub busy : row.ivr_status ≡ 2

-- The row stays as it is, and is not a busy one that no call holds; or it is set online, and no call
-- holds the consultant, who was busy.
abbrev pub IsFreed : World → List Consultant → Consultant → Consultant → Type 0
IsFreed w all c c' =
    ((c' ≡ c) × (c.ivr_status ≡ 2 → IsHeld c.id w))
    ⊎ ((c' ≡ record c { ivr_status = 1 }) × (IsHeld c.id w → ⊥) × IsBusy c.id all)

abbrev pub AreFreed : World → List Consultant → List Consultant → List Consultant → Type 0
AreFreed w all [] [] = Unit
AreFreed w all [] (c' ∷ rows') = ⊥
AreFreed w all (c ∷ rows) [] = ⊥
AreFreed w all (c ∷ rows) (c' ∷ rows') = IsFreed w all c c' × AreFreed w all rows rows'

idle-IsBusy :
    (active : List ℕ) (rows : List Consultant) (id : ℕ)
    → contains (λ a b. a == b) id (idle_ids active rows) ≡ true
    → IsBusy id rows × (contains (λ a b. a == b) id active ≡ false)
unfolding idle_ids
idle-IsBusy active [] id listed = absurd (unfold contains in ground arith)
idle-IsBusy active (c ∷ rows) id listed =
    let later : contains (λ a b. a == b) id (idle_ids active rows) ≡ true
        → IsBusy id (c ∷ rows) × (contains (λ a b. a == b) id active ≡ false) =
      λ h.
        let (b, free) = idle-IsBusy active rows id h in
        (
          record {
            row = b.row;
            before = c ∷ b.before;
            after = b.after;
            listed = ap (λ (l : List Consultant). c ∷ l) b.listed;
            named = b.named;
            busy = b.busy;
          },
          free,
        ) in
    elim (Bool-cases (c.ivr_status == 2 && not (contains (λ a b. a == b) c.id active))) [
      | inr other ↦ later (rw other at listed)
      | inl idle ↦ elim (Bool-cases (c.id == id)) [
        | inl here ↦
            let same : c.id ≡ id = (nat_beq_iff c.id id).0 here in
            let free : contains (λ a b. a == b) c.id active ≡ false = ground arith in
            (
              record {
                row = c;
                before = [];
                after = rows;
                listed = refl;
                named = same;
                busy = (nat_beq_iff c.ivr_status 2).0 (ground arith);
              },
              rw same at free,
            )
        | inr elsewhere ↦ later (unfold contains in ground arith)
      ]
    ]

-- An id comes from the session that is added, or was there.
add_active-cases :
    (o : Option Session) (ids : List ℕ) (id : ℕ)
    → contains (λ a b. a == b) id (add_active o ids) ≡ true
    → ((s : Session) × (o ≡ some s) × (s.consultant_id ≡ some (some id)))
      ⊎ (contains (λ a b. a == b) id ids ≡ true)
unfolding add_active
add_active-cases none ids id listed = inr listed
add_active-cases (some s) ids id listed = elim (Option-cases s.consultant_id) [
  | inl nobody ↦ inr (rw nobody at listed)
  | inr (none, unlinked) ↦ inr (rw unlinked at listed)
  | inr (some k, linked) ↦ elim (Bool-cases (k == id)) [
    | inl here ↦ let same : k ≡ id = (nat_beq_iff k id).0 here in inl (s, refl, rw same at linked)
    | inr other ↦ inr (unfold contains in ground arith)
  ]
]

add_active-held :
    (s : Session) (ids : List ℕ) (id : ℕ)
    → s.consultant_id ≡ some (some id)
    → contains (λ a b. a == b) id (add_active (some s) ids) ≡ true
unfolding add_active contains
add_active-held s ids id held = rw held (ground (arith, ==-refl id))

add_active-kept :
    (o : Option Session) (ids : List ℕ) (id : ℕ)
    → contains (λ a b. a == b) id ids ≡ true
    → contains (λ a b. a == b) id (add_active o ids) ≡ true
unfolding add_active contains
add_active-kept none ids id listed = listed
add_active-kept (some s) ids id listed = ground arith

module _ {F : Type 0} (env : Env F) where
  read_first :
      (u : Text) (uuids : List Text) (w : World) {ids : List ℕ}
      → (active_ids env (u ∷ uuids) w).0 ≡ ok ids
      → (more : List ℕ) × ((active_ids env uuids w).0 ≡ ok more)
        × (ids ≡ add_active (get u w.redis.calls) more)
  unfolding active_ids
  read_first u uuids w read = elim (Result-cases (active_ids env uuids w).0) [
    | inl (more, e) ↦ (more, e, ground (arith, active_ids_same env uuids w))
    | inr (x, e) ↦ absurd (ground (arith, active_ids_same env uuids w))
  ]

  active_ids-IsHeld :
      (uuids : List Text) (w : World) {ids : List ℕ} (id : ℕ)
      → (active_ids env uuids w).0 ≡ ok ids
      → contains (λ a b. a == b) id ids ≡ true
      → IsHeld id w
  active_ids-IsHeld [] w id read listed = absurd (unfold active_ids contains in ground arith)
  active_ids-IsHeld (u ∷ uuids) w id read listed =
      let (more, rest, made) = read_first u uuids w read in
      elim (add_active-cases (get u w.redis.calls) more id (rw made at listed)) [
        | inl (s, found, held) ↦ (u, s, found, held)
        | inr further ↦ active_ids-IsHeld uuids w id rest further
      ]

  held-active :
      (uuids : List Text) (w : World) {ids : List ℕ} (id : ℕ) (u : Text) (session : Session)
      → (active_ids env uuids w).0 ≡ ok ids
      → contains (λ a b. a == b) u uuids ≡ true
      → get u w.redis.calls ≡ some session
      → session.consultant_id ≡ some (some id)
      → contains (λ a b. a == b) id ids ≡ true
  held-active [] w id u session read listed found held = absurd (unfold contains in ground arith)
  held-active (v ∷ uuids) w id u session read listed found held =
      let (more, rest, made) = read_first v uuids w read in
      elim (Bool-cases (v == u)) [
        | inl same ↦
            let e : v ≡ u = (text_beq_iff v u).0 same in
            rw (made, e, found) (add_active-held session more id held)
        | inr other ↦ rw made (
            add_active-kept (get v w.redis.calls) more id
              (held-active uuids w id u session rest (unfold contains in ground arith) found held))
      ]

freed_rows :
    (w : World) (active ids : List ℕ) (all rows : List Consultant)
    → ((id : ℕ) → contains (λ a b. a == b) id active ≡ true → IsHeld id w)
    → ((id : ℕ) → contains (λ a b. a == b) id ids ≡ true → IsBusy id all × (IsHeld id w → ⊥))
    → ((id : ℕ)
        → contains (λ a b. a == b) id (idle_ids active rows) ≡ true
        → contains (λ a b. a == b) id ids ≡ true)
    → AreFreed w all rows (put_online ids rows)
unfolding idle_ids
freed_rows w active ids all [] holds stuck covers = tt
freed_rows w active ids all (c ∷ rows) holds stuck covers =
    let deeper : (id : ℕ)
        → contains (λ a b. a == b) id (idle_ids active rows) ≡ true
        → contains (λ a b. a == b) id ids ≡ true =
      λ id h. covers id (unfold contains in ground arith) in
    let rest = freed_rows w active ids all rows holds stuck deeper in
    elim (Bool-cases (contains (λ a b. a == b) c.id ids)) [
      | inl reset ↦ let (busy, free) = stuck c.id reset in rw reset (inr (refl, free, busy), rest)
      | inr left ↦
          let held : c.ivr_status ≡ 2 → IsHeld c.id w = λ busy.
            elim (Bool-cases (contains (λ a b. a == b) c.id active)) [
              | inl live ↦ holds c.id live
              | inr idle ↦
                  let listed =
                    covers c.id
                      (rw (busy, idle) (unfold contains in ground (arith, ==-refl c.id))) in
                  absurd (ground arith)
            ] in
          rw left (inl (refl, held), rest)
    ]

-- If the reset of stuck consultants returns, then each row of the consultants is either as it was,
-- and if it is busy some session in Redis names its id, or it is online now, where no session names
-- its id and a row of that id was busy. A row keeps its place and its other columns.
pub reset_stuck_exact :
    {F : Type 0} (env : Env F) (w : World)
    → (reset_stuck_consultants env w).0 ≡ ok tt
    → AreFreed w w.db.consultants w.db.consultants (reset_stuck_consultants env w).1.db.consultants
reset_stuck_exact env w done = elim (Result-cases (active_ids env (keys w.redis.calls) w).0) [
  | inr (x, e) ↦
      absurd (
        unfold reset_stuck_consultants in
        ground (arith, active_ids_same env (keys w.redis.calls) w))
  | inl (active, read) ↦
      let ids = idle_ids active w.db.consultants in
      let written : (reset_stuck_consultants env w).1.db.consultants
          ≡ set_online ids w.db.consultants =
        unfold reset_stuck_consultants in
        ground (arith, active_ids_same env (keys w.redis.calls) w, reset_idle_lem env ids w) in
      let stuck : (id : ℕ)
          → contains (λ a b. a == b) id ids ≡ true
          → IsBusy id w.db.consultants × (IsHeld id w → ⊥) =
        λ id listed.
          let (busy, free) = idle-IsBusy active w.db.consultants id listed in
          (
            busy,
            λ held.
                let (u, session, found, linked) = held in
                let live =
                  held-active env (keys w.redis.calls) w id u session read
                    (contains-keys u w.redis.calls found) found linked in
                absurd (ground arith),
          ) in
      rw (written, set_online_lem ids w.db.consultants)
        (freed_rows w active ids w.db.consultants w.db.consultants
          (λ id h. active_ids-IsHeld env (keys w.redis.calls) w id read h) stuck (λ id h. h))
]
