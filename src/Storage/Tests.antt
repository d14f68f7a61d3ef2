-- ===== src/Storage/Tests.antt =====
-- Runs of the block storage.
use monaka_fs.Prelude.{◌≡◌, refl, [], ◌∷◌, replicate, overwrite}
use monaka_fs.Storage.{
  BlockStorage, new, write, write_loop, write_round, finish_write, grow, allocated, read, read_loop,
  copy_out, truncate, shrink, clear_last, clear_from,
}

abbrev one_block : BlockStorage
one_block = (write new 4094 (1 ∷ 2 ∷ 3 ∷ 4 ∷ [])).1

read_across : read one_block 4093 (replicate 6 9) ≡ (5, 0 ∷ 1 ∷ 2 ∷ 3 ∷ 4 ∷ 9 ∷ [])
unfolding read read_loop copy_out write write_loop write_round finish_write grow allocated overwrite
read_across = refl

read_cut :
    read (truncate (truncate one_block 4096) 5000) 4093 (replicate 6 9)
    ≡ (3, 0 ∷ 1 ∷ 2 ∷ 9 ∷ 9 ∷ 9 ∷ [])
unfolding read read_loop copy_out write write_loop write_round finish_write grow allocated overwrite
    truncate shrink clear_last clear_from
read_cut = refl
