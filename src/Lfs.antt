-- ===== src/Lfs.antt =====
-- `lfs_t` of lfs.h and the structures that it holds. The list of open files and directories holds
-- their values, in the order in which the C list links them.
pub mod Links
use littlefs.Prelude.{
  none, some, Option, [], ◌∷◌, if◌then◌else◌, ℕ, ◌-◌, ◌^◌, bit_and, bit_or, Bool, not, List, ◌==◌,
}
use littlefs.Exec.{M, zoom}
use littlefs.Config.{Cache, Bd}
use littlefs.Tag.{Pair}
use littlefs.Gstate.{Gstate, Globals}
use littlefs.Disk.{Ctz}

-- `lfs_mdir_t`
pub record Mdir : Type 0 where
  pub pair : Pair
  pub rev : ℕ
  pub off : ℕ
  pub etag : ℕ
  pub count : ℕ
  pub erased : Bool
  pub split : Bool
  pub tail : Pair

-- `struct lfs_attr`: the bytes that its buffer points to.
pub record Attr : Type 0 where
  pub type : ℕ
  pub buffer : List ℕ

-- `lfs_file_t`; `here` stands for its address, and `attrs` for the attributes of its configuration.
pub record File : Type 0 where
  pub here : ℕ
  pub id : ℕ
  pub m : Mdir
  pub ctz : Ctz
  pub flags : ℕ
  pub pos : ℕ
  pub block : ℕ
  pub off : ℕ
  pub cache : Cache
  pub attrs : List Attr

-- `lfs_dir_t`; `here` stands for its address.
pub record Dir : Type 0 where
  pub here : ℕ
  pub id : ℕ
  pub m : Mdir
  pub pos : ℕ
  pub head : Pair

-- `struct lfs_mlist`: the type field tells a file from a directory.
pub data Open : Type 0 where
  reg : File → Open
  dir : Dir → Open

-- The fields of `struct lfs_mlist`, which files and directories share.
unfoldable pub open_here : Open → ℕ
open_here (reg f) = f.here
open_here (dir d) = d.here

unfoldable pub open_id : Open → ℕ
open_id (reg f) = f.id
open_id (dir d) = d.id

unfoldable pub open_mdir : Open → Mdir
open_mdir (reg f) = f.m
open_mdir (dir d) = d.m

unfoldable pub with_mdir : Mdir → Open → Open
with_mdir m (reg f) = reg (record f { m = m })
with_mdir m (dir d) = dir (record d { m = m })

-- The structure at an address, if the list has it.
unfoldable pub find_open : ℕ → List Open → Option Open
unfolding open_here
find_open here [] = none
find_open here (o ∷ os) = if open_here o == here then some o else find_open here os

unfoldable pub update_open : ℕ → (Open → Open) → List Open → List Open
unfolding open_here
update_open here f [] = []
update_open here f (o ∷ os) = if open_here o == here then f o ∷ os else o ∷ update_open here f os

-- Closing takes the structure out of the list.
unfoldable pub remove_open : ℕ → List Open → List Open
unfolding open_here
remove_open here [] = []
remove_open here (o ∷ os) = if open_here o == here then os else o ∷ remove_open here os

-- `enum lfs_open_flags`, as far as the model uses it.
abbrev pub f_dirty : ℕ
f_dirty = 0x010000

abbrev pub f_writing : ℕ
f_writing = 0x020000

abbrev pub f_reading : ℕ
f_reading = 0x040000

abbrev pub f_erred : ℕ
f_erred = 0x080000

abbrev pub f_inline : ℕ
f_inline = 0x100000

abbrev pub f_opened : ℕ
f_opened = 0x200000

abbrev pub o_rdonly : ℕ
o_rdonly = 1

abbrev pub o_wronly : ℕ
o_wronly = 2

abbrev pub o_creat : ℕ
o_creat = 0x0100

abbrev pub o_excl : ℕ
o_excl = 0x0200

abbrev pub o_trunc : ℕ
o_trunc = 0x0400

abbrev pub o_append : ℕ
o_append = 0x0800

unfoldable pub has_flag : ℕ → ℕ → Bool
has_flag flags f = not (bit_and flags f == 0)

-- `flags |= f` and `flags &= ~f`.
unfoldable pub set_flag : ℕ → ℕ → ℕ
set_flag f flags = bit_or flags f

unfoldable pub clear_flag : ℕ → ℕ → ℕ
clear_flag f flags = bit_and flags (2 ^ 32 - 1 - f)

-- `struct lfs_free`: the buffer is of 32-bit words.
pub record Free : Type 0 where
  pub off : ℕ
  pub size : ℕ
  pub i : ℕ
  pub ack : ℕ
  pub buffer : List ℕ

-- `lfs1` is the root of the filesystem of version 1 that a migration reads, if there is one.
pub record Lfs (D : Type 0) : Type 0 where
  pub bd : Bd D
  pub root : Pair
  pub mlist : List Open
  pub seed : ℕ
  pub gstate : Gstate
  pub globals : Globals
  pub free : Free
  pub name_max : ℕ
  pub file_max : ℕ
  pub attr_max : ℕ
  pub lfs1 : Option Pair

-- A call of the block device layer with `&lfs->rcache` and `&lfs->pcache`.
abbrev pub on_bd : {D A : Type 0} → M (Bd D) A → M (Lfs D) A
on_bd m = zoom (λ s. s.bd) (λ s b. record s { bd = b }) m
