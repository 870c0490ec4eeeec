-- ===== src/Base/Lists.antt =====
-- Lists measured by native numbers, and predicates on lists by recursion.
use Prim.Native.Nat.{ℕ, zero, suc, ◌+◌}
use mathlib.Core.Path.{◌≡◌, refl, ap, ◌∙◌}
use mathlib.Core.Logic.{◌≢◌}
use mathlib.Core.Logic.Or
use mathlib.Core.List.{Mem, Nodup, Pairwise, mem-cons, not-mem-nil}
use mathlib.Core.List.{List, [], ◌∷◌, map}

module _ {ℓ} {A : Type ℓ} where
  abbrev pub length : List A → ℕ
  length [] = 0
  length (x ∷ xs) = suc (length xs)

  abbrev pub replicate : ℕ → A → List A
  replicate zero a = []
  replicate (suc n) a = a ∷ replicate n a

pub length-map {ℓ κ} :
    {A : Type ℓ} {B : Type κ} (f : A → B) (xs : List A) → length (map f xs) ≡ length xs
length-map f [] = refl
length-map f (x ∷ xs) = ap suc (length-map f xs)

-- Every element has the property.
abbrev pub All {ℓ κ} : {A : Type ℓ} → (A → Type κ) → List A → Type κ
All P [] = Unit
All P (x ∷ xs) = P x × All P xs

abbrev pub sum : List ℕ → ℕ
sum [] = 0
sum (x ∷ xs) = x + sum xs

-- Every element differs from the later ones; at a list that is written out this computes.
abbrev pub Differ {ℓ} : {A : Type ℓ} → List A → Type ℓ
Differ [] = Unit
Differ (x ∷ xs) = All (λ y. x ≢ y) xs × Differ xs

ne_of_mem {ℓ} :
    {A : Type ℓ} (a : A) (xs : List A) → All (λ y. a ≢ y) xs → (b : A) → Mem b xs → a ≢ b
ne_of_mem a [] h b m = absurd (not-mem-nil m)
ne_of_mem a (x ∷ xs) h b m =
    Or.elim (hlevel) (mem-cons.0 m) (λ e p. h.0 (p ∙ e)) (ne_of_mem a xs h.1 b)

pub Differ-Nodup {ℓ} : {A : Type ℓ} (xs : List A) → Differ xs → Nodup xs
Differ-Nodup [] h = Pairwise.nil
Differ-Nodup (x ∷ xs) h = Pairwise.cons (ne_of_mem x xs h.0) (Differ-Nodup xs h.1)
