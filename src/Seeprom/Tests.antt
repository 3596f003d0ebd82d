-- ===== src/Seeprom/Tests.antt =====
-- Runs of the theorems on kernel/source/crypto/seeprom.c.
use star_struck.Base.{ℕ, ◌+◌, ◌%◌, ◌^◌, ◌≡◌, ◌⊎◌, refl, some, true, false, List, [], ◌∷◌, arith}
use star_struck.Seeprom.Counters.{
  NandCounter, nand_gen, no_choice, choose, chosen, next_counter, consider, raise_highest,
  lower_lowest, compute_counter_checksum,
}
use star_struck.Seeprom.Boot2.{Boot2Counter, choose_boot2, consider_boot2, copied_boot2}
use star_struck.Seeprom.Shifted.{IsTagVersion, copied_boot2-tag}
use star_struck.Seeprom.Index.{replace}
use star_struck.Seeprom.Newest.{IsNewest, choose-IsNewest}
use star_struck.Seeprom.Updated.{choose-replace}
use star_struck.Seeprom.Pins.{Pins}
use star_struck.Seeprom.Transfer.{Miso, send_bits, read_word, ipc_success}
use star_struck.Seeprom.Words.{Answers, word, read_word-Answers}

abbrev pins : Pins
pins = record { clock = true; select = false; mosi = false; edges = [] }

-- A chip whose words are all 0xFFFF.
abbrev chip : Miso
chip es = true

read_word-Answers_example :
    ((read_word chip 0x7c 0 pins).0 ≡ ipc_success)
    × ((read_word chip 0x7c 0 pins).1 ≡ 0xFFFF % 2 ^ 16)
    × (word 11 (send_bits 11 (0x600 + 0x7c % 0x100) pins).1.edges ≡ 0x600 + 0x7c % 0x100)
unfolding Answers
read_word-Answers_example = read_word-Answers chip 0x7c 0 0xFFFF pins (
  refl,
  (
    refl,
    (
      refl,
      (
        refl,
        (
          refl,
          (
            refl,
            (refl, (refl, (refl, (refl, (refl, (refl, (refl, (refl, (refl, (refl, tt)))))))))),
          ),
        ),
      ),
    ),
  ),
)

-- Three NAND counters: the second is the newest, and the third has a wrong checksum.
abbrev counters : List NandCounter
counters =
    record { first = 0; second = 5; checksum = 5 }
    ∷ record { first = 0; second = 6; checksum = 6 }
    ∷ record { first = 0; second = 9; checksum = 1 }
    ∷ []

abbrev newest : NandCounter
newest = record { first = 0; second = 6; checksum = 6 }

choose-IsNewest_example : IsNewest counters (choose 0 counters no_choice).ptr_out
choose-IsNewest_example = choose-IsNewest counters

choose-replace_example :
    (nand_gen (next_counter newest) ≡ nand_gen newest + 1)
    × ((j : ℕ) × (chosen (choose 0 (replace 2 (next_counter newest) counters) no_choice)
          ≡ some (next_counter newest, j)))
unfolding choose consider raise_highest lower_lowest compute_counter_checksum
choose-replace_example = choose-replace newest 2 counters refl refl (omega arith)

-- Two boot2 counters: the first is of version 1, and the second has a wrong checksum.
abbrev boot2_first : Boot2Counter
boot2_first = record { data0 = 0x100; data1 = 0; data2 = 0x700; data3 = 3; checksum = 0x803 }

abbrev boot2_second : Boot2Counter
boot2_second = record { data0 = 0x200; data1 = 0; data2 = 0; data3 = 0; checksum = 1 }

abbrev boot2_copy : Boot2Counter
boot2_copy = record { data0 = 0x700; data1 = 3; data2 = 0x803; data3 = 0x200; checksum = 0 }

copied_boot2-tag_example :
    IsTagVersion boot2_first boot2_copy ⊎ IsTagVersion boot2_second boot2_copy
unfolding choose_boot2 consider_boot2 copied_boot2
copied_boot2-tag_example =
    copied_boot2-tag [] boot2_first boot2_second boot2_copy 1 (omega arith) (omega arith) refl
