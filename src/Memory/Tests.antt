-- ===== src/Memory/Tests.antt =====
-- The laws of the RAM at sixteen bytes from 0x100 on.
use m68kemu.Memory.PageMap.{PageRange, page_range, add_page_range}
use m68kemu.Memory.PageMap.Laws.{IsOrdered, covered, add_page_range_lem}
use m68kemu.Memory.PageMap.{find_page_mapped_device}
use m68kemu.Memory.PageMap.Search.{linear, find_page_mapped_device_lem}
use m68kemu.Memory.PageMap.Order.{add_page_range-IsOrdered, find-add_page_range}
use m68kemu.Base.{some, List, [], ◌∷◌, true, ◌≡◌, ◌≡◌, arith}
use m68kemu.Operand.{word, long}
use m68kemu.Effect.{ok, ◌>>◌}
use m68kemu.Memory.Ram
use m68kemu.Memory.Ram.{Ram}
use m68kemu.Memory.Ram.Laws.{read_lem, write_lem, write-read, stored, IsBytes}

abbrev small : Ram
small = record { offset = 0x100; size = 16; cell = λ i. 7 }

small-IsBytes : IsBytes small.cell
small-IsBytes i = omega arith

read_lem_example : Ram.read word 0x102 small ≡ ok 0x0707 small
read_lem_example = read_lem word 0x102 small (omega arith, omega arith, omega arith) small-IsBytes

write_lem_example :
    Ram.write word 0x102 0x1234 small
    ≡ ok tt (record small { cell = stored word 2 0x1234 small.cell })
write_lem_example = write_lem word 0x102 0x1234 small (omega arith, omega arith, omega arith)

write-read_example :
    (Ram.write long 0x104 0x1_2345_6789 >> Ram.read long 0x104) small
    ≡ ok 0x2345_6789 (record small { cell = stored long 4 0x1_2345_6789 small.cell })
write-read_example =
    write-read long 0x104 0x1_2345_6789 small (omega arith, omega arith, omega arith) small-IsBytes

-- A device at 0x20 to 0x2f.
abbrev one_device : List PageRange
one_device = page_range 0x20 0x2f 0 ∷ []

one_device-IsOrdered : IsOrdered 0 one_device
one_device-IsOrdered = (omega arith, omega arith, omega arith, tt)

add_page_range_lem_example : covered (add_page_range one_device 0x10 0x3f 1) 0x30 ≡ true
add_page_range_lem_example =
    add_page_range_lem one_device 0 0x10 0x3f 1 0x30 one_device-IsOrdered (omega arith)

find_page_mapped_device_lem_example :
    find_page_mapped_device one_device 0x25 ≡ linear one_device 0x25
find_page_mapped_device_lem_example =
    find_page_mapped_device_lem one_device 0 0x25 one_device-IsOrdered

add_page_range-IsOrdered_example : IsOrdered 0 (add_page_range one_device 0x10 0x3f 1)
add_page_range-IsOrdered_example =
    add_page_range-IsOrdered one_device 0 0x10 0x3f 1 one_device-IsOrdered (omega arith)
      (omega arith)

find-add_page_range_example :
    find_page_mapped_device (add_page_range one_device 0x10 0x3f 1) 0x30 ≡ some 1
unfolding find_page_mapped_device
find-add_page_range_example =
    find-add_page_range one_device 0 0x10 0x3f 1 0x30 one_device-IsOrdered (omega arith)
      (omega arith)
