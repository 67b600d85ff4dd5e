-- ===== src/Decode/EaMask.antt =====
-- The bits eaMask... of cpu.go.
use m68kemu.Base.{ℕ}

abbrev pub data_register : ℕ
data_register = 0x0800

abbrev pub address_register : ℕ
address_register = 0x0400

abbrev pub indirect : ℕ
indirect = 0x0200

abbrev pub post_increment : ℕ
post_increment = 0x0100

abbrev pub pre_decrement : ℕ
pre_decrement = 0x0080

abbrev pub displacement : ℕ
displacement = 0x0040

abbrev pub index : ℕ
index = 0x0020

abbrev pub absolute_short : ℕ
absolute_short = 0x0010

abbrev pub absolute_long : ℕ
absolute_long = 0x0008

abbrev pub immediate : ℕ
immediate = 0x0004

abbrev pub pc_displacement : ℕ
pc_displacement = 0x0002

abbrev pub pc_index : ℕ
pc_index = 0x0001
