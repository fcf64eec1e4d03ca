-- ===== src/Lib.antt =====
-- Verification library of YL (驭灵), a Rust workspace that runs foreign programs in a sandboxed
-- x86-64 interpreter. The development models the loading path of crates/daoti-core/src/elf: a
-- file's bytes are parsed (mod.rs), its loadable segments are laid out (layout.rs), the regions
-- they become live in the interpreter's memory (runtime.rs), and the dynamic relocations are read
-- from the file (mod.rs) and written into that memory (relocation.rs). The guest's system calls work
-- on that memory too (syscall_bridge.rs). Apart from that path stands the account that an
-- interceptor keeps of its process (crates/daoti-core/src/interceptor/state.rs).
--
-- Files and the code they model:
--   Prelude          shared names; Prelude/Tests and Prelude/Lists have Boolean tests and lists on
--                    native numbers; Prelude/Outcome is Result<T, DaotiError> of
--                    crates/daoti-common/src/error.rs; Prelude/Bytes is to_le_bytes and
--                    from_le_bytes; Prelude/Int signed words; Prelude/Utf8 String::from_utf8.
--   Memory           MemPerm, MemoryRegion and MemoryModel of crates/daoti-core/src/elf/runtime.rs:
--                    new, add_region, mprotect, the two mmap searches, probe_read, read, write and
--                    is_executable. Memory/View is the abstract view, a map from addresses to a
--                    byte with its permissions; Memory/Regions, Memory/Same and Memory/Valid hold
--                    the invariant, Memory/Access reads and writes, Memory/Held the bytes after a write, Memory/Mapping the changes of
--                    the map, Memory/Topdown and Memory/Mmap the search, Memory/Steps runs.
--   Elf              ElfSegment; Elf/Layout is crates/daoti-core/src/elf/layout.rs, with its sort in
--                    Elf/Layout/Sort, its promises in Plan and its success in Total.
--   Elf/Image        ElfLoader::build_image of crates/daoti-core/src/elf/mod.rs; Contents says what
--                    stands at each place of an image, Own which segment it comes from.
--   Elf/Parse        ElfInfo and parse_elf_from_bytes of crates/daoti-core/src/elf/mod.rs. Print
--                    describes the bytes of a file, Roundtrip and Safe relate them to the parser.
--   Elf/Dynamic      the reading of relocation tables and symbols in the same file: vaddr_to_file,
--                    dynamic_symbol_name, read_dynamic_relocations_with_plt, and in
--                    Elf/Dynamic/Symbols read_loaded_dynamic_symbols. Relr is about
--                    RELR bitmaps, Chains about the walk of a hash chain. Elf/Dynamic/Plan is
--                    plan_dynamic_load and read_dynamic_string, with its promises in Lowest,
--                    Needed and Segments;
--                    Elf/Dynamic/Symtab is read_full_symtab_symbols, with a description of the
--                    tables in Roundtrip and of the file in Sections.
--   Elf/Relocation   crates/daoti-core/src/elf/relocation.rs: TlsContext and
--                    CrossObjectSymbolResolver, and in Elf/Relocation/Apply
--                    apply_x86_64_relocations_with_tls. Maps, Slots, Frame and Copy are about them.
--   Bridge           crates/daoti-core/src/elf/syscall_bridge.rs: the state and the calls without memory.
--                    Paths, Files, Output, Replies, Tls, Maps and Relocs hold the calls on memory,
--                    Dispatch the choice of the call and runs. Moves, Kept, Calls and Runs are
--                    about the invariant, the other modules about single calls.
--   Flags            update_flags_logic, update_flags_arith_width and parse_jcc of
--                    crates/daoti-core/src/elf/runtime.rs; Compare and Widths relate the jumps to
--                    the order of the compared words.
--   Interpreter      the register file of crates/daoti-core/src/elf/runtime.rs, reg, reg_mut, rd8 and
--                    wr8; Interpreter/Operand is seg_addr, sib_addr and resolve_dst. Registers,
--                    ByteRegisters, Effective and Consumed are about them.
--   ProcessState     crates/daoti-core/src/interceptor/state.rs, every operation; Refines compares any run
--                    of them with maps from keys, by the lemmas of Tables.
--
-- Conventions. A 64-bit word is a number and usize has 64 bits. Result has a third outcome, panic,
-- for an overflowing +, - or * in a build with overflow checks and for an index out of range;
-- checked and saturating operations are written out. The text of an error is its format string with
-- the numbers put into it. Methods that change `self` return the new state; where a method fails,
-- its callers drop the state. Names are lists of bytes, hash maps association lists.
--
-- Loops are structural: over the list, over the count of entries, or over the pages below the start
-- of mmap_anonymous_private_topdown, whose `base` is always a whole number of pages, so that no
-- fuel is needed. The walk of a GNU hash chain reads four bytes further on in each round, so that
-- its fuel, one more than the number of bytes of the file, cannot run out before the file ends; a
-- loop that ran out would give the error `unfinished`, which the program does not have.
--
-- The syscall bridge takes paths, the files behind them and the clock from its host, a record of
-- functions that each call of a run may have its own of. A failed call ends the run, so an error
-- carries no state.
--
-- Not modelled: the observer of the bridge; the trace output that environment variables switch on
-- (DAOTI_FIX_NS_LOADED_WRITE, which changes what is written, is the argument `fix` of `write`);
-- failing allocations; the instruction loop of the interpreter, the walk over dependencies and the
-- runtime context in mod.rs, the dynamic loader, the parsers of other formats, the tables of the
-- mapper; and the rest of the workspace, which starts processes, talks to the host or computes in
-- floating point.
pub mod Prelude
pub mod Memory
pub mod Bridge
pub mod Elf
pub mod Flags
pub mod Interpreter
pub mod ProcessState
