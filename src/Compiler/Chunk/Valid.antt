-- ===== src/Compiler/Chunk/Valid.antt =====
-- src/compiler/ms_chunk.c: the sizes of a chunk's arrays, and the line of each byte.
use mslang_c.Base.{
  ℕ, ◌+◌, ◌^◌, ◌≤◌, ◌<◌, ◌≡◌, some, [], ◌∷◌, arith, length, get_or, get_elem?, length-append,
  get_or-length, get_elem?-length, get_elem?-append, sym,
}
use mslang_c.Compiler.Chunk.{
  Chunk, chunk_emit, chunk_init, chunk_add_const, room_for, chunk_get_line,
}

pub record IsValid {ℓ} {V : Type ℓ} (ck : Chunk V) : Type 0 where
  pub lined : length ck.lines ≡ length ck.code
  pub code_fits : length ck.code ≤ ck.code_cap
  pub lines_fit : length ck.lines ≤ ck.lines_cap
  pub consts_fit : length ck.constants ≤ ck.const_cap

-- An array with room has room for one more after the growth.
room_for-Fits : (len cap : ℕ) → len ≤ cap → len < 2 ^ 31 → len + 1 ≤ room_for len cap
room_for-Fits len cap h small = ground arith

module _ {ℓ} {V : Type ℓ} where
  pub chunk_init-IsValid : IsValid (chunk_init {V = V})
  chunk_init-IsValid = record {
    lined = omega arith;
    code_fits = omega arith;
    lines_fit = omega arith;
    consts_fit = omega arith;
  }

  module _ (ck : Chunk V) (v : IsValid ck) where
    -- A byte emitted to a valid chunk of less than 2 ^ 31 bytes: the chunk is valid, the byte stands
    -- behind the code, the line given is its line, and the lines of the code before it are kept.
    pub chunk_emit-IsValid :
        (byte line : ℕ)
        → length ck.code < 2 ^ 31
        → IsValid (chunk_emit ck byte line)
          × (get_or (chunk_emit ck byte line).code (length ck.code) 0 ≡ byte)
          × (chunk_get_line (chunk_emit ck byte line) (length ck.code) ≡ some line)
          × ((i : ℕ)
              → i < length ck.code
              → chunk_get_line (chunk_emit ck byte line) i ≡ chunk_get_line ck i)
    unfolding chunk_emit
    chunk_emit-IsValid byte line small = (
      record {
        lined =
            omega (
              arith,
              length-append ck.lines (line ∷ []),
              length-append ck.code (byte ∷ []),
              v.lined,
            );
        code_fits = omega (
          arith,
          length-append ck.code (byte ∷ []),
          room_for-Fits (length ck.code) ck.code_cap v.code_fits small,
        );
        lines_fit = omega (
          arith,
          length-append ck.lines (line ∷ []),
          room_for-Fits (length ck.lines) ck.lines_cap v.lines_fit (omega (arith, v.lined)),
        );
        consts_fit = v.consts_fit;
      },
      get_or-length ck.code byte [] 0,
      rw (sym v.lined) (get_elem?-length ck.lines line []),
      λ i h. get_elem?-append ck.lines (line ∷ []) i (omega (arith, v.lined)),
    )

    -- A constant added to a valid chunk of less than 2 ^ 31 constants: the chunk is valid, the index
    -- returned is the constant's, and the constants before it keep theirs.
    pub chunk_add_const-IsValid :
        (val : V)
        → length ck.constants < 2 ^ 31
        → IsValid (chunk_add_const ck val).0
          × (get_elem? (chunk_add_const ck val).0.constants (chunk_add_const ck val).1 ≡ some val)
          × ((i : ℕ)
              → i < length ck.constants
              → get_elem? (chunk_add_const ck val).0.constants i ≡ get_elem? ck.constants i)
    unfolding chunk_add_const
    chunk_add_const-IsValid val small = (
      record {
        lined = v.lined;
        code_fits = v.code_fits;
        lines_fit = v.lines_fit;
        consts_fit = omega (
          arith,
          length-append ck.constants (val ∷ []),
          room_for-Fits (length ck.constants) ck.const_cap v.consts_fit small,
        );
      },
      get_elem?-length ck.constants val [],
      λ i. get_elem?-append ck.constants (val ∷ []) i,
    )
