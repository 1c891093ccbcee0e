-- ===== src/Tests.antt =====
-- The definitions on concrete inputs, and the theorems at them.
pub mod Alloc
pub mod Bd
pub mod Device
pub mod Meta
pub mod Migrate
pub mod Repair
use littlefs.Prelude.{
  ℕ, ◌+◌, ◌%◌, ◌^◌, ◌≤◌, ◌<◌, ◌≡◌, refl, arith, true, false, Option, some, List, [], ◌∷◌, ◌++◌,
  add32, ◌-◌, ◌⊎◌,
}
use littlefs.Util.{npw2, ctz, popc, scmp_gt, aligndown, alignup, tole32, crc}
use littlefs.Util.Ones.{ones, trailing, ctz-eq-trailing}
use littlefs.Util.Bytes.{popc-eq-ones}
use littlefs.Util.Align.{alignup_lem}
use littlefs.Util.Crc.{crc_bitwise, crc-eq-crc_bitwise, crc_residue}
use littlefs.Tag.{mktag, tag_isvalid, tag_type3, tag_id, tag_size}
use littlefs.Tag.Laws.{mktag_fields, mktag-of_fields}
use littlefs.Gstate.{
  Gstate, Globals, gstate_zero, gstate_xor, gstate_hasmove, gstate_xormove, gstate_hasmovehere,
  fs_prepmove, fs_preporphans,
}
use littlefs.Gstate.Laws.{fs_prepmove_balance, fs_preporphans_balance, xormove_self, xormove_clear}
use littlefs.Tag.Kind
use littlefs.Disk.{Superblock, superblock_tole32, superblock_fromle32}
use littlefs.Disk.Laws.{superblock_fromle32-tole32}
use littlefs.Ctz.{ctz_index}
use littlefs.Util.Power.{npw2_lem}
use littlefs.Dir.Commit.{padding_end}
use littlefs.Dir.Commit.Padding.{padding_end_lem}
use littlefs.Dir.Find.{next_name, matched_suffix}
use littlefs.Dir.Find.Name.{Named, next_name-IsName}
use littlefs.Dir.Find.Fuel.{next_name-fuel, matched_suffix-fuel}

-- "123456789"
abbrev digits : List ℕ
digits = 0x31 ∷ 0x32 ∷ 0x33 ∷ 0x34 ∷ 0x35 ∷ 0x36 ∷ 0x37 ∷ 0x38 ∷ 0x39 ∷ []

crc_check : crc 0xffffffff digits ≡ 0x340bc6d9
unfolding crc
crc_check = refl

words_check :
    (npw2 1 ≡ 1)
    × (npw2 2 ≡ 1)
    × (npw2 5 ≡ 3)
    × (npw2 4097 ≡ 13)
    × (ctz 8 ≡ 3)
    × (ctz 0x80000000 ≡ 31)
    × (popc 0xf0f01 ≡ 9)
    × (scmp_gt 1 0xffffffff ≡ true)
    × (aligndown 1029 512 ≡ 1024)
    × (alignup 1025 512 ≡ 1536)
unfolding npw2 ctz popc scmp_gt aligndown alignup
words_check = (refl, refl, refl, refl, refl, refl, refl, refl, refl, refl)

-- A block of 512 bytes holds 512 bytes at index 0, 508 at index 1 and 504 at index 2.
ctz_index_check :
    (ctz_index 512 511 ≡ (0, 511))
    × (ctz_index 512 512 ≡ (1, 4))
    × (ctz_index 512 1019 ≡ (1, 511))
    × (ctz_index 512 1020 ≡ (2, 8))
unfolding ctz_index popc
ctz_index_check = (refl, refl, refl, refl)

crc-eq-crc_bitwise_example : crc 0xffffffff digits ≡ crc_bitwise 0xffffffff digits
crc-eq-crc_bitwise_example = crc-eq-crc_bitwise 0xffffffff digits (ground arith)

crc_residue_example : crc 0xffffffff (digits ++ tole32 (crc 0xffffffff digits)) ≡ 0
crc_residue_example = crc_residue 0xffffffff digits (omega arith)

alignup_example :
    (alignup 1029 512 % 512 ≡ 0) × (1029 ≤ alignup 1029 512) × (alignup 1029 512 < 1029 + 512)
alignup_example = alignup_lem 1029 512 (omega arith) (omega arith)

popc_example : popc 0xf0f01 ≡ ones 32 0xf0f01
popc_example = popc-eq-ones 0xf0f01 (omega arith)

ctz_example : ctz 0x50 ≡ trailing 32 0x50
ctz_example = ctz-eq-trailing 0x50 (omega arith) (omega arith)

mktag_fields_example :
    (tag_type3 (mktag 0x401 5 8) ≡ 0x401)
    × (tag_id (mktag 0x401 5 8) ≡ 5)
    × (tag_size (mktag 0x401 5 8) ≡ 8)
    × (tag_isvalid (mktag 0x401 5 8) ≡ true)
mktag_fields_example = mktag_fields 0x401 5 8 (omega arith) (omega arith) (omega arith)

mktag-of_fields_example :
    mktag (tag_type3 0x40101408) (tag_id 0x40101408) (tag_size 0x40101408) ≡ 0x40101408
mktag-of_fields_example = mktag-of_fields 0x40101408 (omega arith)

-- One orphan, and a move of entry 3 of the pair (8, 9).
abbrev moving : Gstate
moving = record { tag = 0xcff00c01; pair = (8, 9) }

abbrev globals : Globals
globals = record { gpending = moving; gdelta = gstate_zero }

fs_prepmove_balance_example :
    gstate_xor (fs_prepmove 5 (20, 21) globals).gpending (fs_prepmove 5 (20, 21) globals).gdelta
    ≡ gstate_xor moving gstate_zero
fs_prepmove_balance_example = fs_prepmove_balance 5 (20, 21) globals

fs_preporphans_balance_example :
    gstate_xor (fs_preporphans 1 globals).gpending (fs_preporphans 1 globals).gdelta
    ≡ gstate_xor (record moving { tag = add32 0xcff00c01 1 }) gstate_zero
fs_preporphans_balance_example = fs_preporphans_balance 1 globals

xormove_self_example :
    (tag_type3 (gstate_xormove moving moving 5 (20, 21)).tag ≡ Kind.delete)
    × (tag_id (gstate_xormove moving moving 5 (20, 21)).tag ≡ 5)
    × (tag_size (gstate_xormove moving moving 5 (20, 21)).tag ≡ tag_size 0xcff00c01)
    × ((gstate_xormove moving moving 5 (20, 21)).pair ≡ (20, 21))
    × (gstate_hasmovehere (gstate_xormove moving moving 5 (20, 21)) (20, 21) ≡ true)
xormove_self_example = xormove_self moving 5 (20, 21) (omega arith) (omega arith)

xormove_clear_example :
    (gstate_hasmove (gstate_xormove moving moving 0x3ff (20, 21)) ≡ false)
    × (tag_size (gstate_xormove moving moving 0x3ff (20, 21)).tag ≡ tag_size 0xcff00c01)
    × ((gstate_xormove moving moving 0x3ff (20, 21)).pair ≡ (0, 0))
xormove_clear_example = xormove_clear moving (20, 21) (omega arith)

-- "//a/./b/../c"
abbrev dots_path : List ℕ
dots_path = 47 ∷ 47 ∷ 97 ∷ 47 ∷ 46 ∷ 47 ∷ 98 ∷ 47 ∷ 46 ∷ 46 ∷ 47 ∷ 99 ∷ []

-- "../b/../c"
abbrev up_path : List ℕ
up_path = 46 ∷ 46 ∷ 47 ∷ 98 ∷ 47 ∷ 46 ∷ 46 ∷ 47 ∷ 99 ∷ []

next_name_check :
    (next_name 13 dots_path ≡ some (97 ∷ 47 ∷ 46 ∷ 47 ∷ 98 ∷ 47 ∷ 46 ∷ 46 ∷ 47 ∷ 99 ∷ []))
    × (next_name 10 up_path ≡ some (99 ∷ []))
unfolding next_name
next_name_check = (refl, refl)

next_name-IsName_example : Named 10 up_path (next_name 10 up_path)
next_name-IsName_example = next_name-IsName 10 up_path

next_name-fuel_example :
    (name : List ℕ) × (next_name 10 up_path ≡ some name) × (next_name 1000 up_path ≡ some name)
next_name-fuel_example = next_name-fuel 10 1000 up_path (omega arith) (omega arith)

matched_suffix-fuel_example :
    (m : Option (List ℕ)) × (matched_suffix 10 1 up_path ≡ some m)
    × (matched_suffix 1000 1 up_path ≡ some m)
matched_suffix-fuel_example = matched_suffix-fuel 10 1000 1 up_path (omega arith) (omega arith)

padding_end_example :
    (100 ≤ padding_end 100 2048)
    × (padding_end 100 2048 ≤ 100 + 0x3fe)
    × ((padding_end 100 2048 ≡ 2048)
        ⊎ ((100 + 0x3f6 ≤ padding_end 100 2048) × (padding_end 100 2048 + 8 ≤ 2048)))
padding_end_example = padding_end_lem 100 2048 (omega arith) (omega arith)

npw2_example : (0 < npw2 4097) × (4097 ≤ 2 ^ npw2 4097) × (2 ^ (npw2 4097 - 1) < 4097)
npw2_example = npw2_lem 4097 (omega arith) (omega arith)

abbrev superblock : Superblock
superblock = record {
  version = 0x00020000;
  block_size = 512;
  block_count = 1024;
  name_max = 255;
  file_max = 2147483647;
  attr_max = 1022;
}

superblock_example : superblock_fromle32 (superblock_tole32 superblock) ≡ superblock
superblock_example = superblock_fromle32-tole32 superblock (omega arith)
