-- ===== src/Runtime/Calls/Interleaving.antt =====
-- runtime/src/lib.rs with pallets/template/src/lib.rs: calls of the template pallet among other
-- traffic.
use nexusguild.Base.{ℕ, ◌≡◌, refl, ◌∙◌, sym, Option, List, [], ◌∷◌, map}
use nexusguild.Template.Frame.{Frame, IsLawful}
use nexusguild.Template.Counter.{Request, refused, answer, answer_all, InRange}
use nexusguild.Runtime.Calls.{CallCodec}
use nexusguild.Runtime.Calls.Execution.{OtherPallets, IsApart, AllOrdinary, run_bytes}
use nexusguild.Runtime.Calls.Refinement.{bytes_request, run_bytes-refines}

-- The third list has the items of the first two, each in its order.
pub data Shuffle {A : Type 0} : List A → List A → List A → Type 0 where
  done : Shuffle [] [] []
  from_left : {x : A} {xs ys zs : List A} → Shuffle xs ys zs → Shuffle (x ∷ xs) ys (x ∷ zs)
  from_right : {y : A} {xs ys zs : List A} → Shuffle xs ys zs → Shuffle xs (y ∷ ys) (y ∷ zs)

module _ {A : Type 0} (f : A → Request) where
  abbrev pub AllRefused : List A → Type 0
  AllRefused [] = Unit
  AllRefused (y ∷ ys) = (f y ≡ refused) × AllRefused ys

  answer_all-Shuffle :
      {xs ys zs : List A} (c : Option ℕ)
      → Shuffle xs ys zs
      → AllRefused ys
      → answer_all (map f zs) c ≡ answer_all (map f xs) c
  answer_all-Shuffle c done h = refl
  answer_all-Shuffle c (from_left {x} p) h = answer_all-Shuffle (answer (f x) c) p h
  answer_all-Shuffle c (from_right {y} p) (e, h) = rw e (answer_all-Shuffle c p h)

module _ (C : CallCodec) (F : Frame) (O : OtherPallets C F) (Ordinary : F.Origin → Type 0)
    (A : IsApart C F O Ordinary) (L : IsLawful F) where
  open F use {Origin, Storage, get_something}

  pub Ordinary-Shuffle :
      {xs ys zs : List (Origin × List ℕ)}
      → Shuffle xs ys zs
      → AllOrdinary C F Ordinary zs
      → AllOrdinary C F Ordinary xs
  Ordinary-Shuffle done os = tt
  Ordinary-Shuffle (from_left p) (o, os) = (o, Ordinary-Shuffle p os)
  Ordinary-Shuffle (from_right p) (o, os) = Ordinary-Shuffle p os

  -- Other traffic never interferes with the pallet: where a history of bytes is shuffled with
  -- others that decode to no call of the template pallet, or to one that is refused for its origin,
  -- the value of `Something` at the end is the one that the first history leaves alone, wherever
  -- the others stand. The origins are not the root or the sudo key, and the conditions on FRAME, on
  -- the other pallets and on what is read as a `u32` hold.
  pub run_bytes-Shuffle :
      {calls others all : List (Origin × List ℕ)} (s : Storage)
      → Shuffle calls others all
      → AllRefused (bytes_request C F) others
      → AllOrdinary C F Ordinary all
      → InRange (get_something s)
      → get_something (run_bytes C F O all s) ≡ get_something (run_bytes C F O calls s)
  run_bytes-Shuffle {calls} {all = all} s p refuses os h =
      (run_bytes-refines C F O Ordinary A L all s os h).0
      ∙ answer_all-Shuffle (bytes_request C F) (get_something s) p refuses
      ∙ sym (run_bytes-refines C F O Ordinary A L calls s (Ordinary-Shuffle p os) h).0
