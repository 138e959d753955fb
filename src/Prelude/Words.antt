-- ===== src/Prelude/Words.antt =====
-- Machine words: a `uint32_t`, an `int32_t` bit pattern or a `size_t` is a natural number, and
-- each increment and decrement wraps.
use Prim.Native.Nat.{ℕ, ◌+◌, ◌-◌, ◌%◌}

-- `size_t`
abbrev pub inc64 : ℕ → ℕ
inc64 n = (n + 1) % 18446744073709551616

abbrev pub dec64 : ℕ → ℕ
dec64 n = (n + 18446744073709551616 - 1) % 18446744073709551616

abbrev pub sub64 : ℕ → ℕ → ℕ
sub64 a b = (a + 18446744073709551616 - b) % 18446744073709551616

-- A 32-bit pattern: `page_id_t` is `int32_t` in two's complement.
abbrev pub inc32 : ℕ → ℕ
inc32 n = (n + 1) % 4294967296
