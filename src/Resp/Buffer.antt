-- ===== src/Resp/Buffer.antt =====
-- What token.c uses of the buffer library and of its printing of integers, and what it relies on.
use pelikan.Common.{ℕ, ◌+◌, ◌≤◌, ◌<◌, ◌≡◌, Option, some, ◌++◌, length}
use pelikan.Common.Memory.{Bytes}
use pelikan.Common.Int.{ℤ}

-- `buf_wsize`, `dbuf_double`, `buf_write`, the write at `wpos` by `cc_print_int64_unsafe`, what it
-- prints, and CC_INT64_MAXLEN.
pub record BufferOps (B : Type 0) : Type 0 where
  pub wsize : B → ℕ
  pub double : B → Option B
  pub write : B → Bytes → B × ℕ
  pub put : B → Bytes → B
  pub print_int : ℤ → Bytes
  pub int64_maxlen : ℕ

-- Doubling keeps the contents and adds room; a write that fits appends its bytes and takes their
-- room; no integer prints longer than CC_INT64_MAXLEN, which
-- is a small number.
pub record BufferLaws {B : Type 0} (ops : BufferOps B) : Type 0 where
  pub contents : B → Bytes
  pub contents-double : (b b' : B) → ops.double b ≡ some b' → contents b' ≡ contents b
  pub wsize-double : (b b' : B) → ops.double b ≡ some b' → ops.wsize b < ops.wsize b'
  pub contents-write :
      (b : B) (bs : Bytes)
      → length bs ≤ ops.wsize b
      → contents (ops.write b bs).0 ≡ contents b ++ bs
  pub wsize-write :
      (b : B) (bs : Bytes)
      → length bs ≤ ops.wsize b
      → ops.wsize (ops.write b bs).0 + length bs ≡ ops.wsize b
  pub count-write : (b : B) (bs : Bytes) → length bs ≤ ops.wsize b → (ops.write b bs).1 ≡ length bs
  pub contents-put :
      (b : B) (bs : Bytes) → length bs ≤ ops.wsize b → contents (ops.put b bs) ≡ contents b ++ bs
  pub wsize-put :
      (b : B) (bs : Bytes)
      → length bs ≤ ops.wsize b
      → ops.wsize (ops.put b bs) + length bs ≡ ops.wsize b
  pub int64_maxlen-small : ops.int64_maxlen ≤ 32
  pub length-print_int : (z : ℤ) → length (ops.print_int z) ≤ ops.int64_maxlen
