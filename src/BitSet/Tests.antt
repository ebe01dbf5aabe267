-- ===== src/BitSet/Tests.antt =====
-- Runs of bit sets.
use pnacl_c.Base.{◌≡◌, refl, true, false, if◌then◌else◌, ◌==◌, [], ◌∷◌, ok, fault, ◌>>=◌, arith}
use pnacl_c.BitSet.{BitSet, init, clear, set_bit, is_set, set_range}
use pnacl_c.BitSet.Laws.{is_set-set_bit}

abbrev words : BitSet
words = 0 ∷ 5 ∷ []

init_test : init 33 ≡ 0 ∷ 0 ∷ []
unfolding init
init_test = refl

clear_test : clear words ≡ 0 ∷ 0 ∷ []
unfolding clear
clear_test = refl

set_bit_test : (set_bit words 33 true >>= λ w. set_bit w 32 false) ≡ ok (0 ∷ 6 ∷ [])
unfolding set_bit
set_bit_test = refl

outside_test : set_bit words 64 true ≡ fault
unfolding set_bit
outside_test = refl

set_range_test : set_range words 30 4 true ≡ ok (0xc0000000 ∷ 7 ∷ [])
unfolding set_range set_bit
set_range_test = refl

is_set-set_bit_test :
    (set_bit words 34 false >>= λ words'. is_set words' 34)
    ≡ (if 34 == 34 then ok false else is_set words 34)
is_set-set_bit_test = is_set-set_bit words 34 34 false (omega arith) (omega arith)
