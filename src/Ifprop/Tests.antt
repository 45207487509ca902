-- ===== src/Ifprop/Tests.antt =====
-- A system with two network interfaces.
use atop.Prelude.{ℕ, ◌<◌, ◌≡◌, refl, Bool, true, List, [], ◌∷◌, arith, streq}
use atop.Prelude.Int.{pos}
use atop.Ifprop.{
  Ifprop, maxintf, sum_bytes, calcbucket, chain, lookup, getifprop, add_interface, add_interfaces,
  mark_in, mark_virtual, physical_chain, physical_table, invalidate_one, invalidate_chain,
  invalidate_table, empty_table, initifprop,
}
use atop.Ifprop.Laws.{valid, physical, in_table}
use atop.Ifprop.Refresh.{Recognises, asked_table, initifprop-bound, initifprop-keeps_physical}

abbrev eth0 : List ℕ
eth0 = b'e' ∷ b't' ∷ b'h' ∷ b'0' ∷ []

abbrev lo : List ℕ
lo = b'l' ∷ b'o' ∷ []

abbrev words : List (List ℕ)
words = lo ∷ eth0 ∷ []

-- Every interface that the kernel is asked about is an ethernet interface.
abbrev ethernet : Ifprop → Ifprop × Bool
ethernet ifp = (record ifp { type = b'e'; speed = pos 1000; fullduplex = 1 }, true)

ethernet-Recognises : Recognises ethernet
ethernet-Recognises ifp h = refl

program : Unit {0}
unfolding sum_bytes calcbucket chain lookup getifprop add_interface add_interfaces mark_in
    mark_virtual physical_chain physical_table invalidate_one invalidate_chain invalidate_table
    empty_table initifprop streq physical valid in_table
program = tt

abbrev question : List ℕ → Ifprop
question name = record { type = 0; name = name; speed = pos 0; fullduplex = 0 }

speed_of_eth0 : (getifprop (initifprop ethernet words (lo ∷ [])) (question eth0)).0.speed ≡ pos 1000
unfolding program
speed_of_eth0 = refl

type_of_lo : (getifprop (initifprop ethernet words (lo ∷ [])) (question lo)).0.type ≡ b'v'
unfolding program
type_of_lo = refl

initifprop-bound_example : in_table valid (initifprop ethernet words (lo ∷ [])) < maxintf
initifprop-bound_example = initifprop-bound ethernet ethernet-Recognises words (lo ∷ [])

one_physical : (asked_table ethernet words (lo ∷ [])).1 ≡ 1
unfolding program
one_physical = refl

initifprop-keeps_physical_example :
    in_table physical (initifprop ethernet words (lo ∷ []))
    ≡ in_table physical (asked_table ethernet words (lo ∷ [])).0
initifprop-keeps_physical_example =
    initifprop-keeps_physical ethernet words (lo ∷ []) (omega (arith, one_physical))
