-- ===== src/Parser/Tests.antt =====
-- Runs of the arena.
use mslang_c.Base.{some, []}
use mslang_c.Parser.Arena.{Block, Arena}

-- One block, at 1000, of which 20 bytes are used.
abbrev first_block : Block
first_block = record { data_at = 1000; cap = 65536 }

abbrev started : Arena
started = record { head = some first_block; older = []; ptr = 1020; limit = 66536 }
