-- ===== src/Prover/Executor/Files.antt =====
-- The files of a split: what `write_file` changes, and what it leaves.
use text.Mathlib.TextEquality.{eq_iff}
use zkm_prover.Base.{◌≡◌, ◌≢◌, String, some, arith}
use zkm_prover.Platform.{Bytes, World}
use zkm_prover.Stage.Segments.Names.{temporary}
use zkm_prover.Prover.Executor.{write_file}

module _ (w : World) (path : String) (buf : Bytes) {w' : World}
    (written : write_file w path buf ≡ some w') where
  pub write_file-written : w'.files path ≡ some buf
  unfolding write_file
  write_file-written = ground (arith, eq_iff path path)

  pub write_file-other : (p : String) → p ≢ path → p ≢ temporary path → w'.files p ≡ w.files p
  unfolding write_file
  write_file-other p other kept = ground (arith, eq_iff p path, eq_iff p (temporary path))
