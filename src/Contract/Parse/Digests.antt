-- ===== src/Contract/Parse/Digests.antt =====
-- A digest that is printed parses (crates/openwork-execution/src/lib.rs).
use Prim.Native.Nat.{◌/◌, ◌%◌}
use Prim.Native.Char.{code}
use Prim.Native.String as S
use Prim.Native.String.append
use Prim.Native.String.{len, ◌++◌ as append}
use text.Mathlib.TextPositions.{len-append}
use openwork.Common.{
  ℕ, zero, suc, ◌*◌, ◌<◌, ◌≡◌, refl, ap, String, Bool, true, ◌&&◌, List, [], ◌∷◌, ◌++◌, length,
  ◌==◌, arith, &&-eq-true,
}
use openwork.Common.Result.{ok}
use openwork.Core.Text.{codes}
use openwork.Contract.Digest.{hex_digit, hex, sha256_bytes}
use openwork.Contract.External.{External}
use openwork.Contract.Parse.{all_hex, is_hex, parse_digest}

codes-append : (s t : String) → codes (append s t) ≡ codes s ++ codes t
unfolding codes
codes-append S.[] t = rw (append.nil t) refl
codes-append (S.◌∷◌ c s) t = rw (append.cons c s t) (ap (λ cs. code c ∷ cs) (codes-append s t))

all_hex-append :
    (cs ds : List ℕ) → all_hex cs ≡ true → all_hex ds ≡ true → all_hex (cs ++ ds) ≡ true
unfolding all_hex
all_hex-append [] ds h g = g
all_hex-append (c ∷ cs) ds h g =
    ground (arith, &&-eq-true (is_hex c) (all_hex cs) h, all_hex-append cs ds)

-- A test of every number below a bound.
all_below : ℕ → (ℕ → Bool) → Bool
all_below zero p = true
all_below (suc n) p = p n && all_below n p

all_below_at : (n k : ℕ) (p : ℕ → Bool) → all_below n p ≡ true → k < n → p k ≡ true
unfolding all_below
all_below_at zero k p h l = absurd (omega arith)
all_below_at (suc n) k p h l =
    ground (arith, &&-eq-true (p n) (all_below n p) h, all_below_at n k p)

one_hex : ℕ → Bool
one_hex n = len (hex_digit n) == 1 && all_hex (codes (hex_digit n))

nibbles : all_below 16 one_hex ≡ true
unfolding all_below one_hex hex_digit codes all_hex
nibbles = refl

hex_digit-one_hex :
    (n : ℕ) → n < 16 → (len (hex_digit n) ≡ 1) × (all_hex (codes (hex_digit n)) ≡ true)
unfolding one_hex
hex_digit-one_hex n l = ground (
  arith,
  &&-eq-true (len (hex_digit n) == 1) (all_hex (codes (hex_digit n)))
      (all_below_at 16 n one_hex nibbles l),
)

-- Numbers that are bytes.
abbrev pub Bytes : List ℕ → Type 0
Bytes [] = Unit
Bytes (b ∷ bytes) = (b < 256) × Bytes bytes

no_hex : all_hex (codes "") ≡ true
unfolding codes all_hex
no_hex = refl

hex_lem :
    (bytes : List ℕ)
    → Bytes bytes
    → (len (hex bytes) ≡ 2 * length bytes) × (all_hex (codes (hex bytes)) ≡ true)
unfolding hex
hex_lem [] h = (refl, no_hex)
hex_lem (b ∷ bytes) h =
    let (high, high_hex) = hex_digit-one_hex (b / 16) (omega (arith, h.0)) in
    let (low, low_hex) = hex_digit-one_hex (b % 16) (omega arith) in
    let (rest, rest_hex) = hex_lem bytes h.1 in
    let two = append (hex_digit (b / 16)) (hex_digit (b % 16)) in
    (
      omega (
        arith,
        len-append two (hex bytes),
        len-append (hex_digit (b / 16)) (hex_digit (b % 16)),
        high,
        low,
        rest,
      ),
      rw (codes-append two (hex bytes), codes-append (hex_digit (b / 16)) (hex_digit (b % 16)))
          (all_hex-append _ _ (all_hex-append _ _ high_hex low_hex) rest_hex),
    )

module _ (x : External) where
  -- Where the hash function gives 32 bytes, the printed digest of a text parses, and to itself.
  pub parse_digest-sha256_bytes :
      (text : String)
      → length (x.digest text) ≡ 32
      → Bytes (x.digest text)
      → parse_digest (sha256_bytes x text) ≡ ok (sha256_bytes x text)
  unfolding parse_digest sha256_bytes
  parse_digest-sha256_bytes text size bytes =
      let (long, hexed) = hex_lem (x.digest text) bytes in
      let counted : (len (hex (x.digest text)) == 64) ≡ true = ground (arith, long, size) in
      rw (counted, hexed) refl
