-- ===== src/Contract/Parse.antt =====
-- The checked constructors of the contract's texts and numbers, of crates/openwork-execution/src/lib.rs.
-- A byte of a character beyond ASCII fails each test of a byte below, and so does its code point.
pub mod Digests
pub mod Paths
use Prim.Native.String.{len}
use openwork.Common.{
  ℕ, ◌*◌, String, Bool, true, false, not, ◌&&◌, ◌||◌, List, [], ◌∷◌, any, ltb, leb, ◌==◌, str_eq,
  if◌then◌else◌,
}
use openwork.Common.Result.{OpenWorkError, Result, ok, invalid_contract, fail_if, ◌>>◌, ◌>>=◌}
use openwork.Core.Text.{
  codes, is_blank, is_digit, is_lower, is_upper, starts_with, ends_with, contains,
}
use openwork.Contract.{Sha256Digest, ActorId}

unfoldable pub is_hex : ℕ → Bool
is_hex c = is_digit c || (leb b'a' c && leb c b'f')

unfoldable pub all_hex : List ℕ → Bool
unfolding is_hex
all_hex [] = true
all_hex (c ∷ cs) = is_hex c && all_hex cs

-- `Sha256Digest::parse`
unfoldable pub parse_digest : String → Result Sha256Digest
parse_digest value = do
  fail_if (not (len value == 64) || not (all_hex (codes value)))
      (invalid_contract "SHA-256 digest must be 64 lowercase hexadecimal characters")
  ok value

-- `value.split('/')`: the piece that is being read and the pieces behind it
unfoldable pub add_to_first : ℕ → List (List ℕ) → List (List ℕ)
add_to_first c [] = (c ∷ []) ∷ []
add_to_first c (piece ∷ pieces) = (c ∷ piece) ∷ pieces

unfoldable pub split : ℕ → List ℕ → List (List ℕ)
unfolding add_to_first
split separator [] = [] ∷ []
split separator (c ∷ cs) =
    let rest = split separator cs in if c == separator then [] ∷ rest else add_to_first c rest

-- `==` of two texts, by their code points
unfoldable pub eq_codes : List ℕ → List ℕ → Bool
eq_codes [] [] = true
eq_codes (c ∷ cs) (d ∷ ds) = c == d && eq_codes cs ds
eq_codes _ _ = false

is_portable : ℕ → Bool
is_portable c =
    is_digit c || is_lower c || is_upper c || c == b'.' || c == b'_' || c == b'-' || c == b'/'

all_portable : List ℕ → Bool
unfolding is_portable
all_portable [] = true
all_portable (c ∷ cs) = is_portable c && all_portable cs

unfoldable pub invalid_segment : List ℕ → Bool
invalid_segment segment =
    eq_codes segment []
    || eq_codes segment (codes ".")
    || eq_codes segment (codes "..")
    || contains segment (codes ":")

abbrev pub bad_path : OpenWorkError
bad_path = invalid_contract "artifact path must be a portable relative path below the output root"

unfoldable pub refused_path : (String → Bool) → String → Bool
unfolding all_portable
refused_path is_absolute value =
    let cs = codes value in
    starts_with cs (codes "/")
    || contains cs (codes "\\")
    || contains cs (0 ∷ [])
    || not (all_portable cs)
    || any invalid_segment (split b'/' cs)
    || is_absolute value

-- `RelativeArtifactPath::parse`; `is_absolute` is that of the platform's `Path`.
unfoldable pub parse_artifact_path : (String → Bool) → String → Result String
parse_artifact_path is_absolute value = do
  fail_if (refused_path is_absolute value) bad_path
  ok value

unfoldable pub dot_segment : List ℕ → Bool
dot_segment segment = eq_codes segment (codes "..") || eq_codes segment (codes ".")

-- `SandboxWorkingDirectory::parse`
unfoldable pub parse_working_directory : String → Result String
parse_working_directory value = do
  let cs = codes value
  fail_if
      (not (str_eq value "/workspace")
        && (not (starts_with cs (codes "/workspace/"))
            || ends_with cs (codes "/")
            || contains cs (codes "//")
            || contains cs (0 ∷ [])
            || any dot_segment (split b'/' cs)))
      (invalid_contract "runtime working directory must remain below /workspace")
  ok value

-- 100 MiB
abbrev pub default_max_artifact_bytes : ℕ
default_max_artifact_bytes = 104857600

-- `ArtifactSizeBytes::new`
unfoldable pub new_artifact_size : ℕ → Result ℕ
new_artifact_size value = do
  fail_if (ltb default_max_artifact_bytes value)
      (invalid_contract "artifact exceeds the 100 MiB M1 limit")
  ok value

-- `ActorId::parse`
unfoldable pub parse_actor : String → Result ActorId
parse_actor value = do
  fail_if (is_blank value || ltb 256 (len value))
      (invalid_contract "actor ID must contain 1 to 256 characters")
  ok value
