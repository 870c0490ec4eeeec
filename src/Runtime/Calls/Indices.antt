-- ===== src/Runtime/Calls/Indices.antt =====
-- runtime/src/lib.rs: the indices of the pallets.
use mathlib.Core.Equiv.{IsEquiv, Iso, iso_to_equiv}
use mathlib.Core.HLevel.{Σ_prop_path}
use mathlib.Core.Option.{some-injective}
use native.Mathlib.Bridge.{le_prop}
use nexusguild.Base.{ℕ, ◌<◌, ◌≡◌, refl, some, none, arith, Option, ◌≢◌, ◌↔◌, ◌∙◌, sym}
use nexusguild.Runtime.Calls.{Pallet, pallet_index, pallet_of_index}

abbrev Index : Type 0
Index = (n : ℕ) × (n < 8)

pallet_index-below : (p : Pallet) → pallet_index p < 8
unfolding pallet_index
pallet_index-below p = ground arith

abbrev numbered : Pallet → Index
numbered p = (pallet_index p, pallet_index-below p)

pallet_of_index-pallet_index : (p : Pallet) → pallet_of_index (pallet_index p) ≡ some p
unfolding pallet_of_index pallet_index
pallet_of_index-pallet_index p = ground arith

pub pallet_index-found : (n : ℕ) (p : Pallet) → pallet_of_index n ≡ some p → pallet_index p ≡ n
unfolding pallet_of_index pallet_index
pallet_index-found n p e = ground arith

some_below : (n : ℕ) → n < 8 → pallet_of_index n ≢ none
unfolding pallet_of_index pallet_index
some_below n h e = ground arith

pallet_at : (n : ℕ) (r : Option Pallet) → n < 8 → pallet_of_index n ≡ r → Pallet
pallet_at n (some p) h e = p
pallet_at n none h e = absurd (some_below n h e)

pallet_at-some :
    (n : ℕ) (r : Option Pallet) (h : n < 8) (e : pallet_of_index n ≡ r)
    → pallet_of_index n ≡ some (pallet_at n r h e)
unfolding pallet_at
pallet_at-some n (some p) h e = e
pallet_at-some n none h e = absurd (some_below n h e)

pallet_of : Index → Pallet
pallet_of (n, h) = pallet_at n (pallet_of_index n) h refl

numbering : Iso Pallet Index
unfolding pallet_of
numbering = record {
  fun = numbered;
  inv = pallet_of;
  rinv = λ (n, h).
      Σ_prop_path (λ m. le_prop)
        (pallet_index-found n _ (pallet_at-some n (pallet_of_index n) h refl));
  linv = λ p. some-injective _ _ (
      sym (
        pallet_at-some (pallet_index p) (pallet_of_index (pallet_index p)) (pallet_index-below p)
          refl)
      ∙ pallet_of_index-pallet_index p);
}

-- Each number below 8 is the index of exactly one pallet, no pallet has another index, and the
-- pallet that is looked up by a number is the one with this index.
numbered-IsEquiv :
    IsEquiv numbered × ((n : ℕ) (p : Pallet) → (pallet_of_index n ≡ some p) ↔ (pallet_index p ≡ n))
unfolding numbering
numbered-IsEquiv = (
  (iso_to_equiv numbering).1,
  λ n p. (pallet_index-found n p, λ e. rw (← e) (pallet_of_index-pallet_index p)),
)
