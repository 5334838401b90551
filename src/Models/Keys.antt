-- ===== src/Models/Keys.antt =====
-- The primary key of backend/app/models/db/credits_customers.py.
use voip_platform.Base.{
  ℕ, ◌≡◌, refl, Bool, true, false, not, ◌&&◌, ◌||◌, List, [], ◌∷◌, ◌==◌, arith, nat_eq, ==-refl,
  inl, inr, Bool-cases,
}
use voip_platform.Models.{CreditsCustomer}
use voip_platform.Models.Query.{rows_where}

-- A customer with the id is there.
unfoldable pub has_id : ℕ → List CreditsCustomer → Bool
has_id id [] = false
has_id id (c ∷ l) = c.id == id || has_id id l

-- The primary key: no id is there twice.
unfoldable pub distinct_ids : List CreditsCustomer → Bool
unfolding has_id
distinct_ids [] = true
distinct_ids (c ∷ l) = not (has_id c.id l) && distinct_ids l

rows_where-none :
    (id : ℕ) (l : List CreditsCustomer) → has_id id l ≡ false → rows_where (λ k. k.id == id) l ≡ []
unfolding has_id rows_where
rows_where-none id [] h = refl
rows_where-none id (c ∷ l) h = ground (arith, rows_where-none id l)

has_id-where :
    (p : CreditsCustomer → Bool) (c : CreditsCustomer) (l : List CreditsCustomer)
    → rows_where p l ≡ c ∷ []
    → has_id c.id l ≡ true
unfolding has_id rows_where
has_id-where p c [] h = absurd (ground arith)
has_id-where p c (k ∷ l) h = ground (arith, has_id-where p c l, ==-refl c.id)

pub only_with_id :
    (p : CreditsCustomer → Bool) (c : CreditsCustomer) (l : List CreditsCustomer)
    → distinct_ids l ≡ true
    → rows_where p l ≡ c ∷ []
    → rows_where (λ k. k.id == c.id) l ≡ c ∷ []
unfolding distinct_ids rows_where
only_with_id p c [] d h = absurd (ground arith)
only_with_id p c (k ∷ l) d h = elim (Bool-cases (p k)) [
  | inl here ↦ ground (arith, rows_where-none c.id l, ==-refl c.id)
  | inr later ↦ ground (arith, only_with_id p c l, has_id-where p c l)
]

pub where_sound :
    (p : CreditsCustomer → Bool) (c : CreditsCustomer) (l : List CreditsCustomer)
    → rows_where p l ≡ c ∷ []
    → p c ≡ true
unfolding rows_where
where_sound p c [] h = absurd (ground arith)
where_sound p c (k ∷ l) h = elim (Bool-cases (p k)) [
  | inl here ↦ let same : k ≡ c = ground arith in rw same at here
  | inr later ↦ where_sound p c l (ground arith)
]
