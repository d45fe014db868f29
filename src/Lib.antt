-- ===== src/Lib.antt =====
-- Verification of liblcb, a C library of helpers for network programs. Modelled are the parts of
-- it that work on text and bytes in memory: the conversions of numbers to text and back, base64,
-- hexadecimal text, argument lists, INI files, bencoding, CRC-32, big numbers, and the
-- reassembly of fragments. They build on each other: an INI file finds its lines with the byte
-- searches of mem_utils.h and with buf_get_next_line, and stores and reads numbers by the
-- decimal conversions; bt_encode.c reads its lengths and integers by the decimal conversions
-- too; the argument lists use the byte search; base64, CRC-32, the big numbers and the
-- reassembly stand alone.
--
-- - Base (Tests, Lists, Text, Bits, Xor, Int, Buffer): shared by all. Booleans and lists over
--   native numbers, the error codes of errno.h, bit operations in arithmetic, and memory that is
--   written: `store` at an index, and a `Cursor`, a buffer cut at the write pointer.
-- - Memory: include/utils/mem_utils.h, the functions mem_chr, mem_rchr, mem_cmpn and mem_cmpin.
-- - Num: Parse is include/utils/str2num.h, Hex include/utils/strh2num.h, and Format
--   include/utils/num2str.h. Each macro (STR2UNUM, SNUM2STR, ...) is one definition with the
--   width as an argument, and each function an instance of it; its uint8_t variant is the same.
--   Decimal describes decimal text.
-- - Base64: include/utils/base64.h. base64_encode, base64_decode and base64_en_copy write to
--   another buffer; Base64/InPlace has base64_decode_fmt, whose source and destination are one
--   buffer, so that reads see what was written.
-- - BufStr: src/utils/buf_str.c. cvt_hex2bin, cvt_bin2hex, data_xor8 and memxorbuf, and in Args
--   the counts of spaces, buf2args and yn_set_flag32; buf_get_next_line is in Ini/Text. An
--   argument is an offset into the buffer.
-- - Ini: src/utils/ini.c. Line is ini_line_t with the bytes behind `data`, Text has
--   buf_get_next_line (src/utils/buf_str.c), ini_buf_parse and ini_buf_gen, Find has
--   ini_sect_enum to ini_vali_get_uint, and Set has ini_val_set and its number variants. The
--   state is the list of lines.
-- - Bencode: src/utils/bt_encode.c. A node holds addresses of the decoded buffer, which stands
--   at an address of its own, so that sums of addresses wrap as in the code; bt_en_decode and
--   the loops of its lists and dictionaries call each other, and bt_dict_find searches a
--   dictionary.
-- - BigNum: include/math/big_num.h, with 64-bit digits and the 128-bit product of the compiler
--   (BN_CC_MULL_DIV), 2048 bits at most. Digits has the loops on arrays of digits, whose pointer
--   and count are a list; Number has bn_t and its operations, with the digits above `digits`
--   left as they are until they are cleared. Value is the number that digits stand for, base 2 ^
--   64; Number/Made has the objects that calls can make, without bn_assign_digit of the digit 0.
--   Bytes has the conversions from and to bytes, on a little-endian machine.
-- - Crc32: include/math/crc32.h. Tables has the lookup tables as the file lists them, Update the
--   byte loops and the macros of the eight standards; Register is the register of 32 bits that
--   takes a message bit by bit, which the tables and loops are compared with. Linear and Steps
--   show why a table may be used.
-- - Reassembly: include/utils/reass_helper.h. Reass is reass_hlp_t, and reass_hlp_handle_frag is
--   composed of open_frag, place_frag, mark_block and add_data, in the order of its code.
--
-- Conventions. A byte is a number, and a real run has numbers below 256. A NULL pointer is
-- `none` of an Option; that the library's own object is NULL is left out. The result `none` of a
-- function that writes is undefined behaviour: a write or read outside of a buffer, or a
-- division by 0. An integer of w bits wraps by `% 2 ^ w`, and size_t has 64 bits. A signed
-- result is its w-bit pattern. Allocation succeeds; what realloc chooses (whether the block
-- moves, what the new bytes hold) is an argument, Realloc. A name with no size given is its
-- bytes up to the 0 byte.
--
-- Loops are structural recursion where they walk a list. The loop of ini_buf_parse and the
-- searches run on fuel: each round of parsing but the first passes an end of line, so two rounds
-- more than the input has bytes are enough, and a search needs one round for each line.
-- bt_en_decode runs on fuel that every call and every round takes one of; no fuel is enough for
-- every input, and a result that has no more fuel is told apart from an error.
--
-- Not modelled: allocation and release, the self tests, fmt_as_uptime, the file and process
-- helpers, sockets, the thread pool and the services on it, the packet formats, cryptography and
-- elliptic curves, the shifts, division, modular operations and hexadecimal conversions of the
-- big numbers, XML and the other containers.
pub mod Base
pub mod Memory
pub mod Num
pub mod Base64
pub mod BufStr
pub mod Ini
pub mod Bencode
pub mod BigNum
pub mod Crc32
pub mod Reassembly
