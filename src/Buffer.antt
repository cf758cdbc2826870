-- ===== src/Buffer.antt =====
-- utils/threadsafe_buffer.c: the bytes that a reader has not fetched yet. Each function holds the
-- lock of the context from its first access to its last, so the calls of several threads are a
-- sequence of calls. A context that is NULL is left out.
pub mod Fifo
mod Tests
use c_libp2p.Base.{ℕ, ◌+◌, ◌-◌, List, [], ◌++◌, Option, none, some, length, take, drop}
use c_libp2p.Base.{Bool, ltb, ◌&&◌, ◌==◌, if◌then◌else◌}

-- struct ThreadsafeBufferContext, less its lock. `none` is a buffer that is NULL.
pub record Buffer : Type 0 where
  pub buffer_size : ℕ
  pub buffer : Option (List ℕ)

-- threadsafe_buffer_context_new
abbrev pub buffer_new : Buffer
buffer_new = record { buffer_size = 0; buffer = none }

-- threadsafe_buffer_peek
unfoldable pub peek : ℕ → Buffer → List ℕ
peek results_size c = elim c.buffer [
  | none ↦ []
  | some bs ↦
      if ltb 0 c.buffer_size
      then take (if ltb results_size c.buffer_size then results_size else c.buffer_size) bs
      else []
]

-- the size of the buffer after a read of `n` bytes, and what is copied to a new one
abbrev pub shrink : ℕ → Buffer → Buffer
shrink n c =
    if ltb 0 (c.buffer_size - n)
    then record {
      buffer_size = c.buffer_size - n;
      buffer = elim c.buffer [ none ↦ none | some bs ↦ some (drop n bs) ];
    }
    else record { buffer_size = 0; buffer = none }

-- threadsafe_buffer_read: the bytes, and the context after it
unfoldable pub read : ℕ → Buffer → List ℕ × Buffer
read results_size c =
    let got = peek results_size c in (got, if ltb 0 (length got) then shrink (length got) c else c)

-- threadsafe_buffer_write: the size that was added. `room` says that realloc finds memory.
unfoldable pub write : Bool → List ℕ → Buffer → ℕ × Buffer
write room bytes c =
    if length bytes == 0
    then (0, c)
    else if room
    then (
      length bytes,
      record {
        buffer_size = c.buffer_size + length bytes;
        buffer = some (elim c.buffer [ none ↦ bytes | some bs ↦ bs ++ bytes ]);
      },
    )
    else (0, c)
