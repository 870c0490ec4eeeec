-- ===== src/Runtime/Calls/Example.antt =====
-- runtime/src/lib.rs: a codec with a number in four bytes and no calls but those of the template
-- pallet.
use mathlib.Core.Option.{some-injective}
use nexusguild.Base.{
  ◌<◌, refl, ap, ℕ, ◌+◌, ◌*◌, ◌/◌, ◌%◌, ◌≡◌, none, some, Option, ◌≤◌, List, [], ◌∷◌, arith,
}
use nexusguild.Base.Words.{u32_max}
use nexusguild.Runtime.Calls.{CallCodec}
use nexusguild.Runtime.Calls.RoundTrip.{IsCodec}
use nexusguild.Runtime.Calls.Execution.{Holds}
use nexusguild.Runtime.Calls.Exact.{IsCanonical}

abbrev pub take_word : List ℕ → Option (ℕ × List ℕ)
take_word (a ∷ b ∷ c ∷ d ∷ rest) =
    some ((a + 256 * b + 65536 * c + 16777216 * d) % 4294967296, rest)
take_word _ = none

-- The low byte comes first.
abbrev pub codec : CallCodec
codec = record {
  PalletCall = λ p. ⊥;
  encode_pallet_call = λ p call. [];
  decode_pallet_call = λ p bytes. none;
  encode_u32 = λ n. n % 256 ∷ (n / 256) % 256 ∷ (n / 65536) % 256 ∷ (n / 16777216) ∷ [];
  decode_u32 = take_word;
}

word-read :
    (n : ℕ)
    → n ≤ u32_max
    → (n % 256 + 256 * ((n / 256) % 256) + 65536 * ((n / 65536) % 256) + 16777216 * (n / 16777216))
        % 4294967296
      ≡ n
word-read n h = omega arith

pub codec-IsCodec : IsCodec codec
codec-IsCodec = record {
  decode-encode_u32 = λ n rest h. ap (λ w. some (w, rest)) (word-read n h);
  decode-encode_pallet_call = λ p call rest. absurd call;
}

pub take_word-words : (bytes : List ℕ) → Holds (λ (n, rest). n ≤ u32_max) (take_word bytes)
take_word-words (a ∷ b ∷ c ∷ d ∷ rest) = omega arith
take_word-words _ = tt

-- Four bytes are the digits of their word.
digits_of_word :
    (a b c d n : ℕ)
    → a < 256
    → b < 256
    → c < 256
    → d < 256
    → (a + 256 * b + 65536 * c + 16777216 * d) % 4294967296 ≡ n
    → (a ≡ n % 256) × (b ≡ (n / 256) % 256) × (c ≡ (n / 65536) % 256) × (d ≡ n / 16777216)
digits_of_word a b c d n ha hb hc hd e = (omega arith, omega arith, omega arith, omega arith)

pub codec-IsCanonical : IsCanonical codec
codec-IsCanonical (a ∷ b ∷ c ∷ d ∷ bytes) n rest (ha, (hb, (hc, (hd, small)))) e =
    let same = some-injective _ _ e in
    let (first, second, third, fourth) =
      digits_of_word a b c d n ha hb hc hd (ap (λ x. x.0) same) in
    rw (first, second, third, fourth, ap (λ x. x.1) same) refl
codec-IsCanonical _ n rest small e = cc
