-- ===== src/Dir/Info.antt =====
-- `lfs_dir_getinfo`.
use littlefs.Prelude.{ℕ, ◌+◌, List, [], ◌∷◌, ◌==◌, if◌then◌else◌, u8}
use littlefs.Exec.{M, pure, get, ◌>>=◌}
use littlefs.Config.{Config}
use littlefs.Tag.{mktag, tag_type3, tag_size}
use littlefs.Tag.Kind
use littlefs.Disk.{ctz_fromle32}
use littlefs.Lfs.{Lfs, Mdir}
use littlefs.Dir.Get.{dir_get}

-- `struct lfs_info`; the name is the array that holds it, with what stands behind its end.
pub record Info : Type 0 where
  pub type : ℕ
  pub size : ℕ
  pub name : List ℕ

-- `info` is what the caller's structure held before.
unfoldable pub dir_getinfo : {D : Type 0} → Config D → Mdir → ℕ → Info → M (Lfs D) Info
dir_getinfo cfg dir id info =
    if id == 0x3ff then pure (record info { type = Kind.dir; name = b'/' ∷ 0 ∷ [] }) else do
      s ← get
      (tag, name) ← dir_get cfg dir (mktag 0x780 0x3ff 0) (mktag Kind.name id (s.name_max + 1))
      (tag', bytes) ← dir_get cfg dir (mktag 0x700 0x3ff 0) (mktag Kind.struct id 8)
      let size =
          if tag_type3 tag' == Kind.ctzstruct
          then (let ctz = ctz_fromle32 bytes in ctz.size)
          else (if tag_type3 tag' == Kind.inlinestruct then tag_size tag' else info.size)
      pure (record { type = u8 (tag_type3 tag); size = size; name = name })
