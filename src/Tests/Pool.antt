-- ===== src/Tests/Pool.antt =====
-- malloc: a pool at 4096, and the same with one block of ten bytes.
use house.Prelude.{ℕ, ◌+◌, ◌-◌, ◌%◌, ◌≤◌, ◌<◌, ◌≡◌, refl, ◌⊎◌, Option, none, some, [], ◌∷◌, arith}
use house.Malloc.{
  malloc_magic, Pool, pool_top, header_for, count_live, follow, relink, take_block, first_fit,
  pool_alloc, malloc, release, free, realloc,
}
use house.Malloc.Blocks.{IsPool, IsSound}
use house.Malloc.Moves.{request, Reach, here, next, fresh, fresh-IsPool, reached_apart}
use house.Malloc.Serve.{Served, malloc_lem}
use house.Malloc.Release.{free_lem}
use house.Malloc.Copies.{NoRoom, realloc_lem}
use house.Malloc.Carve.{grow, carved-IsPool}
use house.Malloc.Keep.{Kept}
use house.Bytes.{load, store}

abbrev pool : Pool
pool = fresh 4096 (λ _. 0)

pool_valid : IsPool (λ _. 0) [] [] pool
pool_valid = fresh-IsPool 4096 (λ _. 0) (omega arith) (omega arith)

abbrev one_block : Pool
one_block =
    count_live 10
      (record pool { mem = store 4104 10 (store 4096 malloc_magic (λ _. 0)); malloc_cur = 4122 })

abbrev one_size : ℕ → ℕ
one_size = grow (λ _. 0) 4112 10

one_valid : IsPool one_size (4112 ∷ []) [] one_block
one_valid = carved-IsPool pool_valid 4112 10 (omega arith) refl (omega arith) (omega arith)

abbrev two_blocks : Pool
two_blocks = count_live 8 (record one_block {
  mem = store 4136 8 (store 4128 malloc_magic one_block.mem);
  malloc_cur = 4152;
})

malloc_lem_example :
    (p : ℕ) × (s' : Pool) × (malloc 5 one_block ≡ some (p, s'))
    × Served one_size (4112 ∷ []) [] one_block 8 p s'
malloc_lem_example = malloc_lem one_valid 5

free_lem_example :
    IsPool one_size [] (4112 ∷ []) (free 4112 one_block)
    × (free 4112 (free 4112 one_block) ≡ record (free 4112 one_block) { errno = 22 })
    × ((free 4112 one_block).malloc_used + 10 ≡ 10)
free_lem_example = free_lem one_valid [] 4112 [] refl

realloc_lem_example :
    (p : ℕ) × (s' : Pool) × (realloc 4112 20 one_block ≡ some (p, s'))
    × (((p ≡ 0) × (s' ≡ record one_block { errno = 12 }) × NoRoom one_size [] one_block 20)
        ⊎ (IsSound (s', p ∷ 4112 ∷ [])
            × (20 ≤ load (p - 8) s'.mem)
            × Kept one_size one_block s'
            × ((k : ℕ) → k < 10 → s'.mem (p + k) ≡ one_block.mem (4112 + k))))
realloc_lem_example = realloc_lem one_valid [] 4112 [] 20 refl

first_call : malloc 10 pool ≡ some (4112, one_block)
unfolding malloc pool_alloc first_fit follow
first_call = refl

second_call : malloc 1 one_block ≡ some (4144, two_blocks)
unfolding malloc pool_alloc first_fit follow
second_call = refl

address : Option (ℕ × Pool) → ℕ
address none = 0
address (some (p, s)) = p

-- The freed block is handed out again.
recycled : address (malloc 9 (free 4112 two_blocks)) ≡ 4112
unfolding address malloc pool_alloc first_fit follow take_block relink free header_for release load
    store
recycled = refl

two_calls : Reach (pool, []) (two_blocks, 4144 ∷ 4112 ∷ [])
two_calls =
    next (next here (request 10 4112 one_block first_call (λ e. omega (arith, e)) refl))
      (request 1 4144 two_blocks second_call (λ e. omega (arith, e)) refl)

reached_apart_example :
    ((4144 + load 4136 two_blocks.mem + 16 ≤ 4112) ⊎ (4112 + load 4104 two_blocks.mem + 16 ≤ 4144))
    × (4096 + 16 ≤ 4144)
    × (4144 + load 4136 two_blocks.mem ≤ pool_top two_blocks)
    × (4144 % 16 ≡ 0)
reached_apart_example =
    reached_apart 4096 (λ _. 0) two_blocks [] 4144 [] 4112 [] (omega arith) (omega arith) two_calls
