-- ===== src/Contract/Digest.antt =====
-- `sha256_bytes` of crates/openwork-execution/src/lib.rs: a digest printed as lowercase hexadecimal.
use Prim.Native.Nat.{◌/◌, ◌%◌}
use Prim.Native.String.{slice, ◌++◌}
use openwork.Common.{ℕ, ◌+◌, String, List, [], ◌∷◌}
use openwork.Contract.{Sha256Digest}
use openwork.Contract.External.{External}

-- one hexadecimal digit
unfoldable pub hex_digit : ℕ → String
hex_digit n = slice "0123456789abcdef" n (n + 1)

unfoldable pub hex : List ℕ → String
unfolding hex_digit
hex [] = ""
hex (byte ∷ bytes) = (hex_digit (byte / 16) ++ hex_digit (byte % 16)) ++ hex bytes

unfoldable pub sha256_bytes : External → String → Sha256Digest
unfolding hex
sha256_bytes x bytes = hex (x.digest bytes)
