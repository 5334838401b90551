-- ===== src/Models/Query.antt =====
-- The parts of a query: WHERE, LIMIT 1, `scalar_one_or_none`, and UPDATE.
use voip_platform.Base.{Bool, List, [], ◌∷◌, if◌then◌else◌}

unfoldable pub rows_where {ℓ} : {A : Type ℓ} → (A → Bool) → List A → List A
rows_where p [] = []
rows_where p (a ∷ l) = let rest = rows_where p l in if p a then a ∷ rest else rest

-- LIMIT 1
unfoldable pub limit_one {ℓ} : {A : Type ℓ} → List A → List A
limit_one [] = []
limit_one (a ∷ _) = a ∷ []

unfoldable pub update_where {ℓ} : {A : Type ℓ} → (A → Bool) → (A → A) → List A → List A
update_where p f [] = []
update_where p f (a ∷ l) = (if p a then f a else a) ∷ update_where p f l
