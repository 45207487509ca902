-- ===== src/System/Containers/Tests.antt =====
-- Containers that come and go.
use atop.Prelude.{ℕ, ◌≡◌, refl, some, List, [], ◌∷◌, ◌++◌, arith, length}
use atop.Prelude.Int.{pos, ◌-ℤ◌}
use atop.Deviate.Count.{subcount}
use atop.System.Containers.{
  Percontainer, zero_percontainer, container_diff, find_container, container_rounds,
  deviate_containers,
}
use atop.System.Containers.Laws.{expected, container_rounds-expected}

abbrev container : ℕ → ℕ → Percontainer
container ctid n = record zero_percontainer { ctid = ctid; user = pos n }

abbrev before : List Percontainer
before = container 101 5 ∷ container 102 7 ∷ []

abbrev after : List Percontainer
after = container 102 9 ∷ container 103 1 ∷ container 101 6 ∷ []

abbrev devs : List Percontainer
devs = zero_percontainer ∷ zero_percontainer ∷ zero_percontainer ∷ []

container_rounds-expected_example :
    container_rounds
      (length after)
      (record {
        nrcontainer = length before;
        cont = before ++ zero_percontainer ∷ zero_percontainer ∷ [];
      })
      (after ++ [])
      devs
      0
    ≡ some (expected before after devs)
container_rounds-expected_example =
    container_rounds-expected before [] ((ground arith, tt), (tt, tt)) after [] devs
      (ground arith, (ground arith, (ground arith, tt))) (omega arith)

program : Unit {0}
unfolding container_diff find_container container_rounds deviate_containers subcount ◌-ℤ◌
program = tt

-- The number 0, of the host: behind a new container it is taken for an unused entry, and all that it
-- has used so far is reported.
host_behind_new :
    container_rounds 3
      (record {
        nrcontainer = 2;
        cont = container 101 5 ∷ container 0 70 ∷ zero_percontainer ∷ zero_percontainer ∷ [];
      })
      (container 101 6 ∷ container 102 1 ∷ container 0 71 ∷ [])
      devs
      0
    ≡ some (container 101 1 ∷ container 102 1 ∷ container 0 71 ∷ [])
unfolding program
host_behind_new = refl
