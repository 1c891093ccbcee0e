-- ===== src/Tag/Kind.antt =====
-- `enum lfs_type` of lfs.h.
use littlefs.Prelude.{ℕ}

abbrev pub reg : ℕ
reg = 0x001

abbrev pub dir : ℕ
dir = 0x002

abbrev pub splice : ℕ
splice = 0x400

abbrev pub name : ℕ
name = 0x000

abbrev pub struct : ℕ
struct = 0x200

abbrev pub userattr : ℕ
userattr = 0x300

abbrev pub tail : ℕ
tail = 0x600

abbrev pub crc : ℕ
crc = 0x500

abbrev pub create : ℕ
create = 0x401

abbrev pub delete : ℕ
delete = 0x4ff

abbrev pub superblock : ℕ
superblock = 0x0ff

abbrev pub dirstruct : ℕ
dirstruct = 0x200

abbrev pub ctzstruct : ℕ
ctzstruct = 0x202

abbrev pub inlinestruct : ℕ
inlinestruct = 0x201

abbrev pub softtail : ℕ
softtail = 0x600

abbrev pub movestate : ℕ
movestate = 0x7ff

-- "internal chip sources"
abbrev pub from_noop : ℕ
from_noop = 0x000

abbrev pub from_move : ℕ
from_move = 0x101

abbrev pub from_userattrs : ℕ
from_userattrs = 0x102
