-- ===== src/Mount/Limits.antt =====
-- What a mount accepts.
use littlefs.Prelude.{
  ℕ, ◌≤◌, ◌≡◌, ◌≢◌, refl, arith, ltb, ◌==◌, Option, none, some, Bool-cases, inl, inr,
}
use littlefs.Config.{Config}
use littlefs.Disk.{Superblock, superblock_tole32, superblock_fromle32}
use littlefs.Disk.Laws.{IsSuperblock, superblock_fromle32-tole32}
use littlefs.Lfs.{Lfs}
use littlefs.Mount.{is_version, stored_limit, take_limits, take_superblock, format_superblock}

-- A limit is not raised, and one that is not zero does not become zero.
abbrev pub IsLowered : ℕ → Option ℕ → Type 0
IsLowered limit none = Unit {0}
IsLowered limit (some n) = (n ≤ limit) × (limit ≢ 0 → n ≢ 0)

stored_limit-IsLowered : (stored limit : ℕ) → IsLowered limit (stored_limit stored limit)
unfolding stored_limit
stored_limit-IsLowered stored limit = elim (Bool-cases (stored == 0)) [
  | inl default ↦ rw default (omega arith, λ h. h)
  | inr given ↦ elim (Bool-cases (ltb limit stored)) [
    | inl large ↦ rw (given, large) tt
    | inr fits ↦ rw (given, fits) (ground arith, λ h. ground arith)
  ]
]

abbrev pub Lowers : {D : Type 0} → Lfs D → Option (Lfs D) → Type 0
Lowers s none = Unit {0}
Lowers s (some s') =
    IsLowered s.name_max (some s'.name_max)
    × IsLowered s.file_max (some s'.file_max)
    × IsLowered s.attr_max (some s'.attr_max)

stored_limit_self : (n : ℕ) → stored_limit n n ≡ some n
unfolding stored_limit
stored_limit_self n = ground arith

module _ {D : Type 0} where
  take_limits-Lowers :
      (s : Lfs D) (n f a : Option ℕ)
      → IsLowered s.name_max n
      → IsLowered s.file_max f
      → IsLowered s.attr_max a
      → Lowers s (take_limits s n f a)
  unfolding take_limits
  take_limits-Lowers s (some n) (some f) (some a) p q r = (p, q, r)
  take_limits-Lowers s none f a p q r = tt
  take_limits-Lowers s (some n) none a p q r = tt
  take_limits-Lowers s (some n) (some f) none p q r = tt

  -- A superblock that `lfs_mount` accepts raises no limit, neither that of names nor of files nor
  -- of attributes, and makes none zero that was not.
  pub take_superblock-Lowers : (sb : Superblock) (s : Lfs D) → Lowers s (take_superblock sb s)
  unfolding take_superblock
  take_superblock-Lowers sb s = elim (Bool-cases (is_version sb.version)) [
    | inl known ↦ rw known (
        take_limits-Lowers s (stored_limit sb.name_max s.name_max)
          (stored_limit sb.file_max s.file_max) (stored_limit sb.attr_max s.attr_max)
          (stored_limit-IsLowered sb.name_max s.name_max)
          (stored_limit-IsLowered sb.file_max s.file_max)
          (stored_limit-IsLowered sb.attr_max s.attr_max))
    | inr other ↦ rw other tt
  ]

  -- The superblock of 32-bit words that `lfs_format` writes is accepted by the checks of
  -- `lfs_mount`, from a structure with the same limits, and leaves the structure as it is.
  pub take_superblock-format :
      (cfg : Config D) (s : Lfs D)
      → IsSuperblock (format_superblock cfg s)
      → take_superblock (superblock_fromle32 (superblock_tole32 (format_superblock cfg s))) s
        ≡ some s
  unfolding take_superblock take_limits format_superblock is_version
  take_superblock-format cfg s h =
      rw
        (
          superblock_fromle32-tole32 (format_superblock cfg s) h,
          stored_limit_self s.name_max,
          stored_limit_self s.file_max,
          stored_limit_self s.attr_max,
        )
        refl
