-- ===== src/Bytes.antt =====
-- What the code uses of `encoding/binary` and `io`: byte slices as lists of numbers below 256,
-- fixed-width integers in both byte orders, and `io.ReadFull` on the bytes still to come.
mod Defs
pub mod RoundTrip
pub use Defs.{
  IsByte, put_le, get_le, put_be, get_be, ReadError, eof, unexpected_eof, short_read, byte_at,
  uint_be_at,
}
unfoldable pub use Defs.{read_full}
