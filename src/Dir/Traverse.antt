-- ===== src/Dir/Traverse.antt =====
-- `lfs_dir_traverse`: the tags of a directory and of a list of attributes that no later tag
-- supersedes, each passed to a callback.
use littlefs.Prelude.{
  ℕ, zero, suc, ◌+◌, ◌-◌, ◌*◌, ◌^◌, bit_and, bit_or, bit_xor, Bool, true, false, not, ◌&&◌, ◌||◌,
  Option, none, some, List, [], ◌∷◌, ltb, leb, ◌==◌, if◌then◌else◌, length, u16, add32, sub32,
}
use littlefs.Util.{frombe32}
use littlefs.Exec.{M, pure, crash, no_fuel, get, put, zoom, ◌>>=◌, ◌>>◌}
use littlefs.Config.{Config, block_null}
use littlefs.Bd.{bd_read}
use littlefs.Tag.{mktag, tag_type3, tag_id, tag_size, tag_dsize}
use littlefs.Tag.Kind
use littlefs.Gstate.{gstate_hasmovehere}
use littlefs.Lfs.{Lfs, Mdir, Attr, on_bd}
use littlefs.Dir.Commit.{
  Source, from_memory, from_disk, from_dir, from_attrs, from_null, Mattr, dir_traverse_filter,
}

-- Where the loop is: the offset in the log, the tag before, the attributes that are left, and
-- `hasseenmove`.
pub record Cursor : Type 0 where
  pub off : ℕ
  pub ptag : ℕ
  pub attrs : List Mattr
  pub seen : Bool

-- The parameters that choose tags; `diff` is an `int16_t`, widened to 32 bits.
pub record Choice : Type 0 where
  pub tmask : ℕ
  pub ttag : ℕ
  pub begin : ℕ
  pub end : ℕ
  pub diff : ℕ

-- All of them 0: every tag.
abbrev pub everything : Choice
everything = record { tmask = 0; ttag = 0; begin = 0; end = 0; diff = 0 }

-- The start of a traversal of a whole directory without attributes.
unfoldable pub start : Bool → Cursor
start seen = record { off = 0; ptag = block_null; attrs = []; seen = seen }

-- The value of an `int16_t` that is passed a word.
unfoldable pub s16 : ℕ → ℕ
s16 x = let low = u16 x in if ltb low (2 ^ 15) then low else low + (2 ^ 32 - 2 ^ 16)

-- `fromid, fromid+1, toid-fromid+diff` and the masks of a move.
unfoldable pub move_choice : ℕ → ℕ → Choice
unfolding s16
move_choice tag diff =
    let from = tag_size tag in
    record {
      tmask = mktag 0x600 0x3ff 0;
      ttag = mktag Kind.struct 0 0;
      begin = from;
      end = u16 (from + 1);
      diff = s16 (add32 (sub32 (tag_id tag) from) diff);
    }

module _ {D : Type 0} (cfg : Config D) where
  open cfg use {block_size}

  -- The next tag, with what its buffer is.
  unfoldable pub next_tag : Mdir → Cursor → M (Lfs D) (Option (ℕ × Source × Cursor))
  next_tag dir c =
      if ltb (add32 c.off (tag_dsize c.ptag)) dir.off
      then (do
        let off = add32 c.off (tag_dsize c.ptag)
        bytes ← on_bd (bd_read cfg none 4 dir.pair.0 off 4)
        let tag = bit_or (bit_xor (frombe32 bytes) c.ptag) 0x80000000
        let disk = from_disk (record { block = dir.pair.0; off = add32 off 4 })
        pure (some (tag, disk, record c { off = off; ptag = tag })))
      else elim c.attrs [
        | a ∷ rest ↦ pure (some (a.tag, a.buffer, record c { attrs = rest }))
        | [] ↦ do
          s ← get
          let pending = s.globals.gpending
          if not c.seen && gstate_hasmovehere pending dir.pair
              then pure (
                  some (
                    bit_and pending.tag (mktag 0x7ff 0x3ff 0),
                    from_null,
                    record c { seen = true },
                  ))
              else pure none
      ]

  -- `lfs_dir_traverse_filter` as a callback; the state is the tag that `p` points to.
  unfoldable pub filter_cb : ℕ → Source → M (Lfs D × ℕ) Bool
  filter_cb tag source = do
    s ← get
    let (tag', stop) = dir_traverse_filter s.1 tag
    put (s.0, tag')
    pure stop

  -- The first `count` attributes of the user.
  unfoldable pub user_attrs :
      {A : Type 0} → (ℕ → Source → M (Lfs D × A) Bool) → ℕ → ℕ → List Attr → M (Lfs D × A) Bool
  user_attrs cb id zero attrs = pure false
  user_attrs cb id (suc count) [] = crash
  user_attrs cb id (suc count) (a ∷ rest) = do
    stop ← cb (mktag (Kind.userattr + a.type) id (length a.buffer)) (from_memory a.buffer)
    if stop then pure true else user_attrs cb id count rest

  -- "handle special cases for mcu-side operations"; `move` goes through the directory that an entry
  -- moves from.
  unfoldable pub deliver :
      {A : Type 0}
      → (Mdir → Choice → M (Lfs D × A) Bool)
      → (ℕ → Source → M (Lfs D × A) Bool)
      → ℕ
      → ℕ
      → Source
      → M (Lfs D × A) Bool
  unfolding user_attrs move_choice
  deliver move cb diff tag source =
      if tag_type3 tag == Kind.from_noop
      then pure false
      else (if tag_type3 tag == Kind.from_move
          then elim source [ from_dir m ↦ move m (move_choice tag diff) | _ ↦ crash ]
          else (if tag_type3 tag == Kind.from_userattrs
              then elim source [
                | from_attrs attrs ↦ user_attrs cb (add32 (tag_id tag) diff) (tag_size tag) attrs
                | from_null ↦ if tag_size tag == 0 then pure false else crash
                | _ ↦ crash
              ]
              else cb (add32 tag (mktag 0 diff 0)) source))

  -- The loop, on fuel. A callback says whether the loop ends (a nonzero value in C).
  unfoldable pub dir_traverse :
      ℕ
      → (A : Type 0) → (ℕ → Source → M (Lfs D × A) Bool)
      → Mdir
      → Choice
      → Cursor
      → M (Lfs D × A) Bool
  unfolding next_tag filter_cb deliver start
  dir_traverse zero A cb dir choice c = no_fuel
  dir_traverse (suc fuel) A cb dir choice c = do
    next ← zoom (λ s. s.0) (λ s l. (l, s.1)) (next_tag dir c)
    elim next [
      | none ↦ pure false
      | some (tag, source, c') ↦ do
        let mask = bit_and (mktag 0x7ff 0 0) choice.tmask
        let again = dir_traverse fuel A cb dir choice c'
        if not (bit_and mask tag == bit_and mask choice.ttag) then again else do
          kept ← if tag_id choice.tmask == 0 then pure (some tag) else (do
            (stop, tag') ←
                zoom (λ s. (s.0, tag)) (λ s w. (w.0, s.1))
                  (do
                    stop ← dir_traverse fuel ℕ filter_cb dir everything c'
                    w ← get
                    pure (stop, w.1))
            pure (
                if stop || not (leb choice.begin (tag_id tag') && ltb (tag_id tag') choice.end)
                then none
                else some tag'))
          elim kept [
            | none ↦ again
            | some tag' ↦ do
              stop ←
                  deliver (λ m moved. dir_traverse fuel A cb m moved (start true)) cb choice.diff
                    tag' source
              if stop then pure true else again
          ]
    ]

  -- A round for each tag of the log, of at least four bytes, and of the attributes, and as much for
  -- the log of a directory that an entry moves from.
  abbrev pub rounds_max : List Mattr → ℕ
  rounds_max attrs = 2 * block_size + length attrs + 4
