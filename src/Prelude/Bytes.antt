-- ===== src/Prelude/Bytes.antt =====
-- C's `memcpy` on byte arrays.
use Prim.Native.Nat.{ℕ, ◌+◌}
use mathlib.Core.List.{List, ◌++◌}
use cant.Prelude.Lists.{take, drop}

-- memcpy(dst + at, src, n). The copy stays inside both arrays where `at + n ≤ length dst` and
-- `n ≤ length src`; the callers' theorems prove those bounds or take them as hypotheses.
abbrev pub memcpy : List ℕ → ℕ → List ℕ → ℕ → List ℕ
memcpy dst at src n = take at dst ++ (take n src ++ drop (at + n) dst)
