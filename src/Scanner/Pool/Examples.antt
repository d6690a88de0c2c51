-- ===== src/Scanner/Pool/Examples.antt =====
-- The pool of the scanner, `NewBufferPool(1024, 12)`.
use scip_lsp.Common.{◌≡◌, refl, some, false}
use scip_lsp.Common.Int.{pos}
use scip_lsp.Scanner.Pool.{BufferPool, get, get_slice, new_buffer_pool, take_buffer}

abbrev scanner_pool : BufferPool
scanner_pool = new_buffer_pool 1024 12

-- the scratch buffer of a varint has a capacity of 1024 bytes, not of 10
scratch_capacity :
    get false (pos 10) scanner_pool ≡ some (record { len = 10; cap = 1024 }, scanner_pool)
unfolding get get_slice new_buffer_pool take_buffer
scratch_capacity = refl
