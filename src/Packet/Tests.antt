-- ===== src/Packet/Tests.antt =====
-- The checksum and the dump at concrete packets.
use iteso_codigos.Common.{◌≡◌, refl, true, none, some, [], ◌∷◌, length, drop, replicate, arith}
use iteso_codigos.Common.Text.{Bytes, codes}
use iteso_codigos.Packet.Checksum.{add_words, fold_sum, csum}
use iteso_codigos.Packet.Dump.{padding, chars_from, row_end, dump_from, dump}
use iteso_codigos.Packet.Dump.Rows.{rows_from, dump-rows_from}
use iteso_codigos.Packet.Dump.Bounds.{dump_beyond}
use iteso_codigos.Packet.Raw.{build_packet}
use iteso_codigos.Packet.Raw.Program.{replied, main}
use iteso_codigos.Packet.Raw.Program.Reply.{answer_of, main-answer_of}
use iteso_codigos.Common.Run.{done}
use iteso_codigos.Device.{Device}

dump_text :
    dump (codes "hi\n") 3 ≡ some (codes "68 69 0a                                        | hi.\n")
unfolding dump dump_from chars_from row_end padding
dump_text = refl

csum_echo : csum (8 ∷ 0 ∷ 0 ∷ 0 ∷ 0 ∷ 10 ∷ 0 ∷ 20 ∷ []) 8 ≡ some 57847
unfolding csum add_words fold_sum
csum_echo = refl

abbrev here : Bytes
here = 192 ∷ 168 ∷ 56 ∷ 101 ∷ []

abbrev there : Bytes
there = 192 ∷ 168 ∷ 56 ∷ 1 ∷ []

dump-rows_from_example : dump (codes "hi\n") 3 ≡ some (rows_from [] (codes "hi\n"))
dump-rows_from_example = dump-rows_from (codes "hi\n")

dump_past_end : dump (codes "hi\n") 4 ≡ none
dump_past_end = dump_beyond (codes "hi\n") 4 (omega arith)

-- A system that takes every packet, and answers by 92 bytes.
abbrev answering : Device
answering = record {
  State = Bytes;
  read = λ s n. (some s, []);
  write = λ s b. (some (length b), replicate 92 7);
}

main-answer_of_example :
    (packet : Bytes) × (build_packet here there ≡ some packet)
    × (csum packet 20 ≡ some 0)
    × (csum (drop 20 packet) 72 ≡ some 0)
    × (main answering here there (some []) true
        ≡ done (rows_from [] packet, replied (answer_of (replicate 92 7))))
main-answer_of_example =
    main-answer_of answering here there (replicate 92 7) [] refl refl (omega arith) (omega arith)
      (λ packet e. (length packet, refl)) (λ packet e. refl) (omega arith)
