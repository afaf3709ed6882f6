-- ===== src/Lib.antt =====
-- tsanalytics: an analyser of MPEG-2 transport streams.
--
-- The program reads a recording packet by packet. For each packet of 188 bytes it checks the
-- continuity counter of the packet's PID and counts drops, errors and scrambling; it puts the
-- sections of the system tables together from the payloads and parses them; it hashes the
-- file; and it writes the counters, by PID and by position, as JSON. This library models the loop,
-- what it calls and what it writes. The functions are translated from the C code statement
-- by statement and can be run.
--
-- The files, with the code they model:
-- - GetBit: `getBit` of m2tlib/util.c. GetBit.Word, GetBit.Field and GetBit.Stream relate it
--   to the bits of the buffer.
-- - Reader: calls of `getBit` that share the offset `boff`.
-- - Adapt: `extract_adaptation_field` of m2tlib/head_adapt.c. Adapt.Control has its early
--   returns, Adapt.Safety the ranges of its reads.
-- - Head: `st_head` of m2tlib/head.c, which calls `getBit` and `extract_adaptation_field`.
--   Head.Decode has its fields as arithmetic on the packet's bytes.
-- - DropCount: `drop_check_and_count` and `mark_last_drop_count` of m2tlib/drop_count.c. The
--   array `TS_DROP_COUNT[8192]` is a function of the PID. DropCount.Cell is about one packet on
--   its cell, DropCount.Check about a call, DropCount.Sequence and DropCount.Gap about runs of
--   packets, DropCount.Interleave about PIDs that are mixed, DropCount.Last about the mark of the
--   last PID.
-- - DropList: `add_drop_list` and `free_drop_list` of drop_list.c, which take the flags that
--   `drop_check_and_count` leaves. The linked list is the list of its nodes. DropList.Lookup and
--   DropList.Keys are about its keys, DropList.Short about their lengths.
-- - Crc: `crc32` and `crc32_check` of m2tlib/crc32.c, with the table in Crc.Table;
--   Crc.Total is about the reads of the check, Crc.Bitwise about the CRC bit by bit, Crc.Changed
--   about a changed byte, Crc.Detect about sections that are sound or damaged.
-- - Packet: `st_packet`, `free_packet_list` and `free_packet_list_all` of m2tlib/packet.c. The
--   array `PACKET_LIST[8192]` is a function of the PID, together with the number of blocks that
--   `calloc` has returned and `free` has not taken back. Packet.Block is about a cell and its
--   block, Packet.Assemble about a call that stores a payload, Packet.Feed about any call,
--   Packet.Listening about the PIDs that are listened to, Packet.Section about the packets of a
--   section, Packet.Release about the release of all cells.
-- - Pat: `st_pat`, `get_pmt_pid` and `free_pat_pids` of m2tlib/pat.c, on the block that
--   `st_packet` leaves. Pat.Entry is about the loop over the entries, Pat.Search about
--   the search of their list, Pat.Header about the fields in front of them, Pat.Table about
--   whole sections, Pat.Front about the bytes that a table depends on.
-- - SectionHeader: the fields that the sections of the tables begin with, as arithmetic.
-- - Time: `hex_to_digi`, `mjd_to_tm`, `time_to_tm` and `tm_to_text` of m2tlib/util.c. Time.Digits
--   and Time.Timed are about the digits and the five bytes, Time.Calendar and Time.Days about the
--   Gregorian calendar, Time.Text about the text.
-- - Tot: `st_tot` of m2tlib/tot.c; Tot.Timed is about its result.
-- - Pmt: `st_pmt` of m2tlib/pmt.c. Pmt.Encode and Pmt.Source have a program map as bytes,
--   Pmt.Streams is about the loop over the streams, Pmt.Table about whole sections.
-- - Eit: `st_eit` and `free_eit` of m2tlib/eit.c. Eit.Encode and Eit.Source have a table of events
--   as bytes, Eit.Descs and Eit.Loop are about the two loops, Eit.Table about whole sections,
--   Eit.Release about the release of a table. The events that are lost are part of the result.
-- - Component: `st_desc_component` of m2tlib/descriptor.c.
-- - Digest: the packets of a file and their hashes in tsanalytics.c, with the hashes as parameters;
--   Digest.Hashing is about the digests of a file.
-- - Analysis: the loop of the function `tsanalytics` of tsanalytics.c: its variables as a record,
--   its body as a step. Analysis.Sync is about packets without the sync byte, Analysis.Sound,
--   Analysis.Parsers and Analysis.Safety about the invariant of the loop, Analysis.Totals and
--   Analysis.Unharmed about its counts, Analysis.Buffers and Analysis.Texts about the texts that it
--   copies. Analysis.Aside, Analysis.Deliver, Analysis.Phases and
--   Analysis.Broadcast are about a PAT among packets of other PIDs.
-- - Json: `conv_json_drop_pid` and `conv_json_drop_key` of conv_json.c, as the text they write;
--   Json.Keys and Json.Pids are about their lines.
-- - Report: the rest of the text that `tsanalytics` writes, with `version.h`; Report.Programs is
--   about the list of programs, Report.Plain about a file that is not a transport stream,
--   Report.Written about a file with a PAT.
-- - Args: the arguments of main.c; Args.Order is about their order.
-- - Program: `getFileSize` of m2tlib/util.c, the opening of the files in tsanalytics.c, and `main`
--   of main.c as a whole, which calls what Args and Report have. Program.Refusal is about
--   recordings that cannot be read, Program.Recording about one that has a PAT.
-- - Dump: the functions that print a structure for debugging, in m2tlib and in drop_list.c, as the
--   text they print; Dump.Tables is about their reads.
-- - Tests: the theorems at concrete packets, sections and files.
-- - Base: shared names, lists over the native numbers, fixed widths, bits, and undefined
--   behaviour as `none` of `Option`.
--
-- Integers are native natural numbers. Every conversion to a C type is written out as a
-- remainder (`u8`, `u16`, `u32`, `u64`), shifts are products and quotients by powers of two, and
-- an `int64_t` is kept as its bit pattern. A read past a buffer, a shift by 64 or more and a copy
-- past a block are `none`.
--
-- Bounds: `getBit` always loads eight bytes, the loop of `add_drop_list` makes at most 100000
-- rounds, that of `free_drop_list` 1000000, and the loops over all PIDs 8192. These are the
-- code's own limits, as are the 100 events and 100 descriptors of `st_eit`, and recursion goes by
-- the rounds that are left. Only the loop of `st_pmt` takes fuel, one more than the bytes of the
-- block: a round moves at least five bytes on.
--
-- Assumed of the platform: pointers have 8 bytes, so `memset(ptr, 0, sizeof(ptr))` clears 8;
-- `int` has 32 bits and a shift into its sign bit acts on the bit pattern; `calloc` succeeds;
-- `%d` takes the low 32 bits of a 64-bit argument; a file does not change while it is read, so
-- that `fread` gives its packets one after the other; `atoi`, `sprintf` and `strftime` are the
-- text functions of the C library. A hash of OpenSSL is a context with `Init`, `Update` and
-- `Final`; where a theorem needs it, hashing two pieces one after the other is hashing both
-- together.
--
-- The three calls for an event's duration are taken from left to right, and `sscanf` is a
-- parameter that gives the number, if there is one.
--
-- What stands at a path is a parameter: the mode, the bytes and whether it can be opened, with
-- `S_IFMT` and `S_IFREG`. `stat` gives the number of a file's bytes as its size. The output is
-- written in whole.
--
-- Not modelled: the hashes, which are OpenSSL's; `free_head`, `free_desc_component` and `free_tot`,
-- which free or clear one object; the lines under `DEBUG`, which is 0. The parsers of the PMT, the
-- EIT and the component descriptor are modelled though the program does not call them.
mod Base
pub mod GetBit
pub mod Reader
pub mod Adapt
pub mod Head
pub mod DropCount
pub mod DropList
pub mod Crc
pub mod Packet
pub mod SectionHeader
pub mod Pat
pub mod Time
pub mod Tot
pub mod Digest
pub mod Analysis
pub mod Json
pub mod Report
pub mod Args
pub mod Program
pub mod Dump
pub mod Pmt
pub mod Eit
pub mod Component
mod Tests
