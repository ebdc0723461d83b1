-- ===== src/Orchestrator/Files.antt =====
-- What an artifact that was scanned is (crates/openwork-execution/src/artifact/mod.rs).
use Prim.Native.String.{len}
use openwork.Common.{
  ℕ, ◌+◌, ◌≤◌, ◌≡◌, refl, sym, ap, subst, ◌∙◌, String, Bool, true, false, not, ◌||◌, Option, none,
  some, List, [], ◌∷◌, ◌++◌, length, length-append, ltb, ◌==◌, str_eq, arith, ||-eq-false,
  not-eq-false,
}
use openwork.Common.Result.{
  Result, ok, artifact_error, invalid_contract, fail_if, ok_or_else, >>=-eq-ok, ◌>>=◌, ◌>>◌,
  fail_if-eq-ok, ok-injective, OpenWorkError,
}
use openwork.Core.Text.{codes}
use openwork.Contract.{RunId, ArtifactId, UtcTimestamp, u64_max}
use openwork.Contract.Run.{Artifact}
use openwork.Contract.Digest.{hex}
use openwork.Contract.Parse.{new_artifact_size, parse_digest, all_hex, default_max_artifact_bytes}
use openwork.Orchestrator.Scanner.{
  FileSystem, OpenFile, copy, hash_file, media_type, scan_one, reject_symlink_components,
}

-- The bytes that reading gives until it ends.
abbrev pub contents : List (Option (List ℕ)) → List ℕ
contents [] = []
contents (none ∷ reads) = []
contents (some [] ∷ reads) = []
contents (some (b ∷ bytes) ∷ reads) = (b ∷ bytes) ++ contents reads

-- A file was found below the root, stayed as long as it was, and is described by the artifact.
pub record IsScan (fs : FileSystem) (max_bytes : ℕ) (root : String) (a : Artifact) : Type 0 where
  pub canonical : String
  pub found : fs.canonicalize (fs.join root a.path) ≡ some canonical
  pub below : fs.is_below canonical root ≡ true
  pub inside : str_eq canonical root ≡ false
  pub file : OpenFile
  pub opened : fs.open_file canonical ≡ some file
  pub before : file.before ≡ some (true, a.size_bytes)
  pub after : (regular : Bool) × (file.after ≡ some (regular, a.size_bytes))
  pub bounded : a.size_bytes ≤ max_bytes
  pub sized : a.size_bytes ≡ length (contents file.reads)
  pub digested : a.sha256 ≡ hex (fs.sha256 (contents file.reads))

copy_lem :
    (max_bytes copied : ℕ) (reads : List (Option (List ℕ))) (n : ℕ) (bytes : List ℕ)
    → copy max_bytes copied reads ≡ ok (n, bytes)
    → (bytes ≡ contents reads) × (n ≡ copied + length (contents reads))
unfolding copy
copy_lem max_bytes copied [] n bytes h =
    let same = ok-injective (copied, []) (n, bytes) h in
    (sym (ap (λ p. p.1) same), omega (arith, ap (λ p. p.0) same))
copy_lem max_bytes copied (none ∷ reads) n bytes h = cc
copy_lem max_bytes copied (some [] ∷ reads) n bytes h =
    let same = ok-injective (copied, []) (n, bytes) h in
    (sym (ap (λ p. p.1) same), omega (arith, ap (λ p. p.0) same))
copy_lem max_bytes copied (some (b ∷ bs) ∷ reads) n bytes h =
    let chunk : List ℕ = b ∷ bs in
    let total : ℕ = copied + length chunk in
    let checks : Result Unit =
      fail_if (ltb u64_max total) (artifact_error "artifact too large")
      >> fail_if (ltb max_bytes total) (artifact_error "artifact exceeds its configured limit") in
    let (_, _, h1) =
      >>=-eq-ok checks (λ _. copy max_bytes total reads >>= λ (m, rest). ok (m, chunk ++ rest)) h in
    let (last, copied_rest, h2) =
      >>=-eq-ok (copy max_bytes total reads) (λ (m, rest). ok (m, chunk ++ rest)) h1 in
    let (same_rest, same_total) = copy_lem max_bytes total reads last.0 last.1 copied_rest in
    let same : ◌≡◌ {A = ℕ × List ℕ} (last.0, chunk ++ last.1) (n, bytes) =
      ok-injective (last.0, chunk ++ last.1) (n, bytes) h2 in
    (
      sym (ap (λ p. p.1) same) ∙ ap (λ rest. chunk ++ rest) same_rest,
      omega (arith, ap (λ p. p.0) same, same_total, length-append chunk (contents reads)),
    )

ok_or_else-eq-ok :
    {A : Type 0} (o : Option A) (e : OpenWorkError) {a : A} → ok_or_else o e ≡ ok a → o ≡ some a
ok_or_else-eq-ok none e h = cc
ok_or_else-eq-ok (some b) e {a} h = ap some (ok-injective b a h)

parse_digest-eq : (value digest : String) → parse_digest value ≡ ok digest → digest ≡ value
unfolding parse_digest
parse_digest-eq value digest h =
    let (_, _, same) =
      >>=-eq-ok
        (fail_if (not (len value == 64) || not (all_hex (codes value)))
          (invalid_contract "SHA-256 digest must be 64 lowercase hexadecimal characters"))
        _ h in
    sym (ok-injective value digest same)

new_artifact_size-eq : (n size : ℕ) → new_artifact_size n ≡ ok size → n ≡ size
unfolding new_artifact_size
new_artifact_size-eq n size h =
    let (_, _, same) =
      >>=-eq-ok
        (fail_if (ltb default_max_artifact_bytes n)
          (invalid_contract "artifact exceeds the 100 MiB M1 limit"))
        _ h in
    ok-injective n size same

module _ (fs : FileSystem) (max_bytes : ℕ) where
  -- What `hash_file` read of the file.
  record IsHash (relative : String) (file : OpenFile) (a : Artifact) : Type 0 where
    path : a.path ≡ relative
    before : file.before ≡ some (true, a.size_bytes)
    after : (regular : Bool) × (file.after ≡ some (regular, a.size_bytes))
    bounded : a.size_bytes ≤ max_bytes
    sized : a.size_bytes ≡ length (contents file.reads)
    digested : a.sha256 ≡ hex (fs.sha256 (contents file.reads))

  assembled :
      (id : ArtifactId) (run_id : RunId) (relative canonical : String) (at : UtcTimestamp)
      (file : OpenFile) (before : Bool × ℕ) (hashed : ℕ × List ℕ) (after : Bool × ℕ)
      (sha256 : String) (size : ℕ)
      → file.before ≡ some before
      → (not before.0 || ltb max_bytes before.1) ≡ false
      → copy max_bytes 0 file.reads ≡ ok hashed
      → file.after ≡ some after
      → (not (hashed.0 == before.1) || ltb max_bytes hashed.0 || not (before.1 == after.1)) ≡ false
      → parse_digest (hex (fs.sha256 hashed.1)) ≡ ok sha256
      → new_artifact_size hashed.0 ≡ ok size
      → IsHash relative file (record {
        id = id;
        run_id = run_id;
        path = relative;
        media_type = media_type fs canonical;
        size_bytes = size;
        sha256 = sha256;
        created_at = at;
      })
  assembled id run_id relative canonical at file (regular, long) (n, bytes) (still, later) sha256
        size b fits read a stable sha sized =
      let (same_bytes, total) = copy_lem max_bytes 0 file.reads n bytes read in
      let same_size = new_artifact_size-eq n size sized in
      let is_regular : regular ≡ true = ground (arith, fits) in
      let same_long : long ≡ size = ground (arith, stable, same_size) in
      let same_later : later ≡ size = ground (arith, stable, same_size) in
      record {
        path = refl;
        before = b ∙ λ i. some (is_regular i, same_long i);
        after = (still, a ∙ λ i. some (still, same_later i));
        bounded = ground (arith, stable, same_size);
        sized = omega (arith, total, same_size);
        digested = parse_digest-eq _ sha256 sha ∙ ap (λ bs. hex (fs.sha256 bs)) same_bytes;
      }

  hash_file-IsHash :
      (id : ArtifactId) (run_id : RunId) (relative canonical : String) (at : UtcTimestamp)
      (file : OpenFile) (a : Artifact)
      → hash_file fs max_bytes id run_id relative canonical at file ≡ ok a
      → IsHash relative file a
  unfolding hash_file
  hash_file-IsHash id run_id relative canonical at file a h =
      let (before, b_is, h1) =
        >>=-eq-ok (ok_or_else file.before (artifact_error "artifact metadata unavailable")) _ h in
      let (_, fits, h2) =
        >>=-eq-ok
          (fail_if (not before.0 || ltb max_bytes before.1)
            (artifact_error "artifact is not a bounded regular file"))
          _ h1 in
      let (hashed, read_is, h3) = >>=-eq-ok (copy max_bytes 0 file.reads) _ h2 in
      let (after, a_is, h4) =
        >>=-eq-ok (ok_or_else file.after (artifact_error "artifact metadata unavailable")) _ h3 in
      let (_, stable, h5) =
        >>=-eq-ok
          (fail_if
            (not (hashed.0 == before.1) || ltb max_bytes hashed.0 || not (before.1 == after.1))
            (artifact_error "artifact changed while scanning or exceeded its limit"))
          _ h4 in
      let (sha256, sha_is, h6) = >>=-eq-ok (parse_digest (hex (fs.sha256 hashed.1))) _ h5 in
      let (size, size_is, h7) = >>=-eq-ok (new_artifact_size hashed.0) _ h6 in
      subst (IsHash relative file) (ok-injective _ a h7) (
        assembled id run_id relative canonical at file before hashed after sha256 size
          (ok_or_else-eq-ok _ _ b_is) (fail_if-eq-ok _ _ fits) read_is (ok_or_else-eq-ok _ _ a_is)
          (fail_if-eq-ok _ _ stable) sha_is size_is)

  -- An artifact that scan_one returns is a regular file strictly below the output root, at the path
  -- given; its size is the number of bytes read, at most the configured maximum, and the length that
  -- the file had before and after; its hash is that of the bytes read.
  pub scan_one-IsScan :
      (id : ArtifactId) (run_id : RunId) (root relative : String) (at : UtcTimestamp) (a : Artifact)
      → scan_one fs max_bytes id run_id root relative at ≡ ok a
      → IsScan fs max_bytes root a × (a.path ≡ relative)
  unfolding scan_one
  scan_one-IsScan id run_id root relative at a h =
      let (_, _, h1) = >>=-eq-ok (reject_symlink_components fs root relative) _ h in
      let (canonical, c_is, h2) =
        >>=-eq-ok
          (ok_or_else (fs.canonicalize (fs.join root relative))
            (artifact_error "artifact is unavailable"))
          _ h1 in
      let (_, inside, h3) =
        >>=-eq-ok
          (fail_if (not (fs.is_below canonical root) || str_eq canonical root)
            (artifact_error "artifact escapes the output root"))
          _ h2 in
      let (file, o_is, h4) =
        >>=-eq-ok (ok_or_else (fs.open_file canonical) (artifact_error "artifact cannot be read")) _
          h3 in
      let r = hash_file-IsHash id run_id relative canonical at file a h4 in
      let (below, apart) =
        ||-eq-false (not (fs.is_below canonical root)) (str_eq canonical root)
          (fail_if-eq-ok _ _ inside) in
      (
        record {
          canonical = canonical;
          found = ap (λ p. fs.canonicalize (fs.join root p)) r.path ∙ ok_or_else-eq-ok _ _ c_is;
          below = not-eq-false (fs.is_below canonical root) below;
          inside = apart;
          file = file;
          opened = ok_or_else-eq-ok _ _ o_is;
          before = r.before;
          after = r.after;
          bounded = r.bounded;
          sized = r.sized;
          digested = r.digested;
        },
        r.path,
      )
