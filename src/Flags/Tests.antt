-- ===== src/Flags/Tests.antt =====
-- A comparison of bytes, crates/daoti-core/src/elf/runtime.rs.
use yl.Prelude.{inl, refl, arith}
use yl.Flags.Widths.{Compared, compare-Jumps}

-- -128 against 1: the difference overflows the byte.
compare-Jumps_example : Compared 1 128 0x80 1
compare-Jumps_example = compare-Jumps 1 0x80 1 (inl refl) (omega arith) (omega arith)
