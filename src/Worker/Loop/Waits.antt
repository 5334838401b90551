-- ===== src/Worker/Loop/Waits.antt =====
-- The waits of run_worker between one connection and the next.
use voip_platform.Base.{
  ℕ, zero, suc, ◌*◌, ◌^◌, ◌≤◌, ◌<◌, ◌≡◌, ap, ◌∙◌, Bool, Option, none, some, List, [], ◌∷◌, arith,
  ltb, if◌then◌else◌, length,
}
use voip_platform.Worker.Loop.{backoffs, next_backoff}

-- `xs[i]`
unfoldable pub get_elem? : {A : Type 0} → List A → ℕ → Option A
get_elem? [] i = none
get_elem? (a ∷ l) zero = some a
get_elem? (a ∷ l) (suc i) = get_elem? l i

abbrev pub cap : ℕ → ℕ
cap n = if ltb 60 n then 60 else n

one≤2^ : (i : ℕ) → 1 ≤ 2 ^ i
one≤2^ zero = omega arith
one≤2^ (suc i) = grind (arith, one≤2^ i)

le_mul : (a p : ℕ) → 1 ≤ p → a ≤ a * p
le_mul a p h = grind arith

double : (b i : ℕ) → b * 2 ^ suc i ≡ b * 2 * 2 ^ i
double b i = grind arith

cap_next : (b i : ℕ) → cap (next_backoff b * 2 ^ i) ≡ cap (b * 2 ^ suc i)
unfolding next_backoff
cap_next b i = rw (double b i) (ground (arith, one≤2^ i, le_mul (b * 2) (2 ^ i) (one≤2^ i)))

next_backoff-small : (b : ℕ) → next_backoff b ≤ 60
unfolding next_backoff
next_backoff-small b = ground arith

-- The wait after the i-th connection, counted from 0, is the first wait doubled i times, or 60
-- seconds if that is more, whether or not the connections had been made, where the first wait is at
-- most 60.
pub backoffs_lem :
    (backoff : ℕ) (outcomes : List Bool) (i : ℕ)
    → backoff ≤ 60
    → i < length outcomes
    → get_elem? (backoffs backoff outcomes) i ≡ some (cap (backoff * 2 ^ i))
unfolding backoffs get_elem?
backoffs_lem b [] i h k = absurd (omega arith)
backoffs_lem b (o ∷ outcomes) zero h k = ground arith
backoffs_lem b (o ∷ outcomes) (suc i) h k =
    let small : next_backoff b ≤ 60 = next_backoff-small b in
    backoffs_lem (next_backoff b) outcomes i small (omega arith) ∙ ap some (cap_next b i)
