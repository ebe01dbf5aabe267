-- ===== src/Abbreviations/Tests.antt =====
-- Abbreviations that are read and copied.
use pnacl_c.Base.{
  ◌≡◌, refl, arith, true, false, inl, inr, [], ◌∷◌, length, if◌then◌else◌, ◌==◌, fatal, fault,
}
use pnacl_c.Base.{ok}
use pnacl_c.BitStream.{BitStream, read, read_vbr, vbr_loop, narrow, read_frac_bits}
use pnacl_c.Record.{AbbrevOp, Abbrev}
use pnacl_c.Abbreviations.{
  Abbrevs, read_definition, read_ops, memmove, copy, copy_abbrevs_for_block_id, append_abbrev,
  allocate, write_ops,
}
use pnacl_c.Abbreviations.Grammar.{IsAbbrev}
use pnacl_c.Abbreviations.Offsets.{Holds, abbrevs_of}
use pnacl_c.Abbreviations.Layout.{read_definition-Holds, copy_abbrevs_for_block_id-Holds}

-- Three ops: a fixed of 7 bits, and an array of six-bit characters.
abbrev stream : BitStream
stream = record {
  bytes = λ i. 0;
  data_len = 4;
  curword = 2199107;
  curword_bits = 32;
  bit_offset = 0;
}

abbrev stream_end : BitStream
stream_end = record {
  bytes = λ i. 0;
  data_len = 4;
  curword = 0;
  curword_bits = 10;
  bit_offset = 22;
}

abbrev text : Abbrev
text = AbbrevOp.fixed 7 ∷ AbbrevOp.array ∷ AbbrevOp.char6 ∷ []

abbrev number : Abbrev
number = AbbrevOp.vbr 6 ∷ []

-- The list of that one abbreviation, and one of both.
abbrev number_list : Abbrevs
number_list = record {
  headers = record { num_ops = 1; ops = 16 } ∷ [];
  size = 24;
  memory = λ p. if p == 16 then AbbrevOp.vbr 6 else AbbrevOp.blob;
}

number_list-Holds : Holds number_list (number ∷ [])
number_list-Holds = record { headers = refl; size = refl; stored = (refl, tt) }

-- Behind the number of the ops.
abbrev stream_ops : BitStream
stream_ops = record {
  bytes = λ i. 0;
  data_len = 4;
  curword = 68722;
  curword_bits = 27;
  bit_offset = 5;
}

count_test : read_vbr stream 5 ≡ ok (3, stream_ops)
unfolding read read_vbr vbr_loop narrow read_frac_bits
count_test = refl

read_ops_test : read_ops 3 stream_ops ≡ ok (text, stream_end)
unfolding read_ops read read_vbr vbr_loop narrow read_frac_bits
read_ops_test = refl

-- Two ops, of which the second one is the array: its element is behind them.
array_last_test : read_ops 2 stream_ops ≡ fault
unfolding read_ops read read_vbr vbr_loop narrow read_frac_bits
array_last_test = refl

read_definition-Holds_example :
    (a : Abbrevs) × (read_definition true number_list stream ≡ ok (a, stream_end))
    × Holds a (number ∷ text ∷ [])
    × (abbrevs_of a ≡ number ∷ text ∷ [])
    × IsAbbrev text
    × (length text ≡ 3)
read_definition-Holds_example =
    read_definition-Holds true number_list (number ∷ []) stream stream_ops stream_end 3 text
      number_list-Holds (inl refl) count_test read_ops_test

-- A list that is not the last allocation does not grow.
not_last_test : read_definition false number_list stream ≡ fatal
unfolding read_definition allocate read read_vbr vbr_loop narrow read_frac_bits
not_last_test = refl

abbrev empty_list : Abbrevs
empty_list = record { headers = []; size = 0; memory = λ p. AbbrevOp.char6 }

append_abbrev_test :
    append_abbrev false (empty_list ∷ []) 0 []
    ≡ ok (
      0,
      record {
        headers = record { num_ops = 0; ops = 16 } ∷ [];
        size = 16;
        memory = memmove 16 0 0 (λ p. AbbrevOp.char6);
      }
          ∷ [],
    )
unfolding append_abbrev copy allocate write_ops
append_abbrev_test = refl

copy_abbrevs_for_block_id-Holds_example :
    (a : Abbrevs) × (copy_abbrevs_for_block_id false (empty_list ∷ number_list ∷ []) 1 empty_list
      ≡ ok a)
    × Holds a (number ∷ [])
    × (abbrevs_of a ≡ number ∷ [])
copy_abbrevs_for_block_id-Holds_example =
    copy_abbrevs_for_block_id-Holds false (empty_list ∷ number_list ∷ []) 1 number_list empty_list
      [] (number ∷ []) (omega arith) refl number_list-Holds
      record { headers = refl; size = refl; stored = tt } (inr refl)
