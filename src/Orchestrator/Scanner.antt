-- ===== src/Orchestrator/Scanner.antt =====
-- The artifact scanner, of crates/openwork-execution/src/artifact/mod.rs.
use openwork.Common.{
  ℕ, ◌+◌, String, Bool, false, not, ◌||◌, Option, none, some, List, [], ◌∷◌, ◌++◌, map, any, length,
  ltb, ◌==◌, str_eq, if◌then◌else◌,
}
use openwork.Common.Result.{Result, ok, err, artifact_error, fail_if, ok_or_else, ◌>>=◌, ◌>>◌}
use openwork.Core.Text.{codes, to_lower}
use openwork.Contract.{RunId, ArtifactId, UtcTimestamp, u64_max}
use openwork.Contract.Run.{Artifact}
use openwork.Contract.Digest.{hex}
use openwork.Contract.Parse.{eq_codes, new_artifact_size, parse_digest}

-- An open file: what `metadata` says before and after the reading (whether it is a regular file, and its
-- length), and the answers of `read` in turn, of which none is an error. A read of no byte is the end.
pub record OpenFile : Type 0 where
  pub before : Option (Bool × ℕ)
  pub reads : List (Option (List ℕ))
  pub after : Option (Bool × ℕ)

-- The file system, `std::path` and the sha2 crate, as the scanner calls them.
pub record FileSystem : Type 0 where
  -- `symlink_metadata(path)`, whether it is a link
  pub is_symlink : String → Option Bool
  pub canonicalize : String → Option String
  -- `metadata(path).is_ok_and(is_dir)`
  pub is_dir : String → Bool
  pub open_file : String → Option OpenFile
  pub join : String → String → String
  -- `Path::starts_with`, of the path and its base
  pub is_below : String → String → Bool
  -- the prefixes `root/a`, `root/a/b`, … of a relative path
  pub components : String → String → List String
  pub extension : String → Option String
  pub sha256 : List ℕ → List ℕ

-- The `reject_symlink` loop of a path's components.
reject_symlinks : FileSystem → List String → Result (Unit {0})
reject_symlinks fs [] = ok tt
reject_symlinks fs (path ∷ paths) = do
  link ← ok_or_else (fs.is_symlink path) (artifact_error "artifact path is unavailable")
  fail_if link (artifact_error "artifact path cannot contain symlinks")
  reject_symlinks fs paths

unfoldable pub reject_symlink_components : FileSystem → String → String → Result (Unit {0})
unfolding reject_symlinks
reject_symlink_components fs root relative = reject_symlinks fs (fs.components root relative)

unfoldable pub trusted_root : FileSystem → String → Result String
trusted_root fs path = do
  link ← ok_or_else (fs.is_symlink path) (artifact_error "output root is unavailable")
  fail_if link (artifact_error "output root cannot be a symlink")
  root ← ok_or_else (fs.canonicalize path) (artifact_error "output root is unavailable")
  fail_if (not (fs.is_dir root)) (artifact_error "output root is not a directory")
  ok root

-- The loop of `scan_one`: how much was copied, and the bytes that were hashed.
unfoldable pub copy : ℕ → ℕ → List (Option (List ℕ)) → Result (ℕ × List ℕ)
copy max_bytes copied [] = ok (copied, [])
copy max_bytes copied (none ∷ reads) = err (artifact_error "artifact cannot be hashed")
copy max_bytes copied (some [] ∷ reads) = ok (copied, [])
copy max_bytes copied (some (b ∷ bytes) ∷ reads) =
    let total = copied + length (b ∷ bytes) in
    fail_if (ltb u64_max total) (artifact_error "artifact too large")
    >> fail_if (ltb max_bytes total) (artifact_error "artifact exceeds its configured limit")
    >> (copy max_bytes total reads >>= λ (n, rest). ok (n, (b ∷ bytes) ++ rest))

is_extension : Option String → String → Bool
is_extension none name = false
is_extension (some e) name = eq_codes (map to_lower (codes e)) (codes name)

unfoldable pub media_type : FileSystem → String → String
unfolding is_extension
media_type fs path =
    let e = fs.extension path in
    if is_extension e "csv"
    then "text/csv"
    else if is_extension e "json"
    then "application/json"
    else if is_extension e "md"
    then "text/markdown"
    else if is_extension e "txt"
    then "text/plain"
    else "application/octet-stream"

module _ (fs : FileSystem) (max_bytes : ℕ) where
  -- The part of `scan_one` on the file that was opened.
  unfoldable pub hash_file :
      ArtifactId → RunId → String → String → UtcTimestamp → OpenFile → Result Artifact
  hash_file id run_id relative canonical created_at file = do
    before ← ok_or_else file.before (artifact_error "artifact metadata unavailable")
    fail_if (not before.0 || ltb max_bytes before.1)
        (artifact_error "artifact is not a bounded regular file")
    hashed ← copy max_bytes 0 file.reads
    after ← ok_or_else file.after (artifact_error "artifact metadata unavailable")
    fail_if (not (hashed.0 == before.1) || ltb max_bytes hashed.0 || not (before.1 == after.1))
        (artifact_error "artifact changed while scanning or exceeded its limit")
    sha256 ← parse_digest (hex (fs.sha256 hashed.1))
    size_bytes ← new_artifact_size hashed.0
    ok (record {
      id = id;
      run_id = run_id;
      path = relative;
      media_type = media_type fs canonical;
      size_bytes = size_bytes;
      sha256 = sha256;
      created_at = created_at;
    })

  unfoldable pub scan_one : ArtifactId → RunId → String → String → UtcTimestamp → Result Artifact
  scan_one id run_id root relative created_at = do
    reject_symlink_components fs root relative
    canonical ←
        ok_or_else (fs.canonicalize (fs.join root relative))
          (artifact_error "artifact is unavailable")
    fail_if (not (fs.is_below canonical root) || str_eq canonical root)
        (artifact_error "artifact escapes the output root")
    file ← ok_or_else (fs.open_file canonical) (artifact_error "artifact cannot be read")
    hash_file id run_id relative canonical created_at file

  -- The rounds of `scan`, with the paths seen; `ids i` is the identifier drawn in round `i`.
  unfoldable pub scan_paths :
      (ℕ → ArtifactId)
      → RunId
      → String
      → UtcTimestamp
      → List String
      → List String
      → Result (List Artifact)
  scan_paths ids run_id root created_at seen [] = ok []
  scan_paths ids run_id root created_at seen (path ∷ paths) =
      fail_if (any (str_eq path) seen) (artifact_error "duplicate output path")
      >> (scan_one (ids 0) run_id root path created_at >>= λ artifact.
          scan_paths (λ i. ids (i + 1)) run_id root created_at (path ∷ seen) paths >>= λ artifacts.
          ok (artifact ∷ artifacts))

  unfoldable pub scan :
      (ℕ → ArtifactId) → RunId → String → List String → UtcTimestamp → Result (List Artifact)
  scan ids run_id output_root paths created_at = do
    root ← trusted_root fs output_root
    scan_paths ids run_id root created_at [] paths

  unfoldable pub verify : ArtifactId → String → Artifact → Result (Unit {0})
  verify id output_root artifact = do
    root ← trusted_root fs output_root
    current ← scan_one id artifact.run_id root artifact.path artifact.created_at
    fail_if
        (not (current.size_bytes == artifact.size_bytes)
          || not (str_eq current.sha256 artifact.sha256))
        (artifact_error "artifact size or SHA-256 mismatch")

-- `ArtifactScanner::new`
unfoldable pub new_scanner : ℕ → Result ℕ
new_scanner max_bytes = do size ← new_artifact_size max_bytes; ok max_bytes
