-- ===== src/Cgroups/Walk/Gone.antt =====
-- The number of processes that the walk returns, when directories disappear under it.
use atop.Prelude.{ℕ, ◌+◌, ◌≡◌, sym, ap, subst, List, length, if◌then◌else◌, Bool-cases, inl, inr}
use atop.Prelude.Int.{ℤ, pos, ◌+ℤ◌, pos_part, neg_part, int_laws}
use atop.Cgroups.Walk.{
  Dir, gone, dir, Entries, no_entries, file, subdir, Current, starts_with_dot, walkcgroup,
}
use atop.Cgroups.Walk.Expected.{total, below, walkcgroup-groups}

-- The processes in all directories that are there, and the directories that are gone.
unfoldable mutual
  pub pids : Dir → ℕ
  pids gone = 0
  pids (dir procs c entries) = pids_below entries + length procs

  pub pids_below : Entries → ℕ
  pids_below no_entries = 0
  pids_below (file name rest) = pids_below rest
  pids_below (subdir name d rest) =
      if starts_with_dot name then pids_below rest else pids d + pids_below rest

unfoldable mutual
  pub gone_dirs : Dir → ℕ
  gone_dirs gone = 1
  gone_dirs (dir procs c entries) = gone_below entries

  pub gone_below : Entries → ℕ
  gone_below no_entries = 0
  gone_below (file name rest) = gone_below rest
  gone_below (subdir name d rest) =
      if starts_with_dot name then gone_below rest else gone_dirs d + gone_below rest

mutual
  unfolding total below pids pids_below gone_dirs gone_below

  total_lem : (d : Dir) → total d +ℤ pos (gone_dirs d) ≡ pos (pids d)
  total_lem gone = omega int_laws
  total_lem (dir procs c entries) =
      let e = below_lem entries in omega (int_laws, ap pos_part e, ap neg_part e)

  below_lem : (es : Entries) → below es +ℤ pos (gone_below es) ≡ pos (pids_below es)
  below_lem no_entries = omega int_laws
  below_lem (file name rest) = below_lem rest
  below_lem (subdir name d rest) = elim (Bool-cases (starts_with_dot name)) [
    | inl dot ↦ rw dot (below_lem rest)
    | inr other ↦
        let a = total_lem d in
        let b = below_lem rest in
        rw other (omega (int_laws, ap pos_part a, ap neg_part a, ap pos_part b, ap neg_part b))
  ]

-- The walk over any directory and from any state: the number that it returns is the number of
-- processes in the directories of its tree, less one for each directory that had disappeared before
-- the walk could change to it.
pub walkcgroup-pids :
    (d : Dir) (dirname : List ℕ) (parentseq upperhash : ℤ) (upperlen depth : ℕ) (s : Current)
    → (walkcgroup dirname d parentseq upperhash upperlen depth s).1 +ℤ pos (gone_dirs d)
      ≡ pos (pids d)
walkcgroup-pids d dirname parentseq upperhash upperlen depth s =
    subst (λ (w : Current × ℤ). w.1 +ℤ pos (gone_dirs d) ≡ pos (pids d))
      (sym (walkcgroup-groups d dirname parentseq upperhash upperlen depth s)) (total_lem d)
