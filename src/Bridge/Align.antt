-- ===== src/Bridge/Align.antt =====
-- `align_up` of crates/daoti-core/src/elf/syscall_bridge.rs, which works on bits, against rounding up to
-- a multiple.
