-- ===== src/Lib.antt =====
-- SLOF, the Slimline Open Firmware for PowerPC machines: a model of parts of its C code, with the
-- theorems that make them correct.
--
-- Most of SLOF is Forth, which calls C for what is hot or near the machine. Parts of its components
-- in C are modelled here. They meet as follows: the partition code of the NVRAM compares names with
-- the C library's string functions, and its variables live in a partition; the network loader reads
-- its arguments with the same functions, and the DHCP client copies options with them; what
-- the client sends passes through the UDP and IPv4 headers and ARP. The loader then fetches a file by
-- TFTP; a name is looked up by DNS. Forth code calls the block allocator for DMA windows, the NVRAM code
-- for boot variables, and the TPM code, which uses the hash functions, for boot measurements.
--
-- Prelude and its children: shared names, Boolean tests, lists, signed numbers, bits of a word.
--
-- Bitmap models slof/allocator.c. `struct bitmap` is the record Bitmap, its words a list of 64-bit
--   numbers; bm_test_bit, bm_set_bit, bm_clear_bit, bm_find_bits and the SLOF_bm_* calls are
--   functions of the same names less the prefix. A handle is an option. SLOF_alloc_mem is Forth
--   code: whether it finds memory is a parameter. SLOF_bm_print only prints and is left out.
--   Bitmap/Words has the single bits, Runs the loops over bits, Blocks the invariant, Search
--   bm_find_bits, Alloc and Free the calls.
--
-- Libc models functions of lib/libc. In the string and number functions a C string is the list of
--   characters from the pointer on, and the list's end stands for a terminator; a pointer into it is
--   an index or the rest of the list. Libc/Compare has strlen, strcmp and strncmp, Search the other
--   searches and comparisons of lib/libc/string, Ctype lib/libc/ctype, Number strtol, strtoul, atol
--   and atoi. Libc/Memory has the functions on memory, with strncpy, over a function from addresses
--   to bytes. Libc/Heap models malloc.c, free.c,
--   realloc.c and memalign.c of lib/libc/stdlib with slof/sbrk.c on such a memory: its walks take fuel,
--   one more than the bytes in use, since a chunk has four at least; the calls of malloc by itself
--   take fuel that the caller gives. Libc/Rand has rand and srand. strcpy, strcat and strtok are left
--   out.
--
-- Nvram models lib/libnvram/nvram.c in the build without NVRAM hardware, where the memory is an
--   array; the accesses of the other builds go through a hypervisor call. NVRAM_LENGTH is a field
--   of the state, the memory a function from offsets to bytes. Nvram/Store has the accesses, the
--   buffer and erasing, Nvram/Partition the headers and the walks along them, Nvram/Change the calls
--   that add, delete and enlarge partitions. The walks take fuel, one more than the length of the
--   memory: each round but the last advances by 16 bytes at least.
--
--   Nvram/Env models lib/libnvram/envvar.c on the same state: get_env, add_env, del_env and set_env,
--   with the loops they share. Env/Get reads a partition as a list of variables, Env/Add appends to
--   it, Env/RoundTrip puts both together. The loops over variables take fuel, one more than the
--   length of the memory, since each variable but the last takes two bytes at least; those that walk
--   back to a byte take 2 ^ 32, the number of offsets.
--
-- Net models lib/libnet/args.c. Net/Args has the arguments between commas, and Net/Address the
--   octets of an address; the theorems stand in their child modules. The loops take fuel: the length
--   of the string and one more to count arguments, and 6 rounds for an address of four octets, as
--   each round but the last stores one. argncpy works on the memory of Libc/Memory.
--
--   Net/Dhcp models lib/libnet/dhcp.c. Dhcp/Options finds, appends and merges options in memory
--   (dhcp_find_option, dhcp_append_option, dhcp_combine_option, dhcp_merge_options), Dhcp/Decode and
--   Dhcp/Encode read and write a structure (dhcp_decode_options, dhcp_encode_options), Dhcp/Client has
--   handle_dhcp, and Dhcp/Attempt has dhcp_attempt. Options/Layout says when a region holds a list of
--   options. The static variables are the record Client, and calls of other parts are listed in it;
--   packets that arrive, the success of malloc, DHCPARCH and the address of the buffer on the stack
--   are parameters. The loops over options take fuel, the length of the field and one more, since
--   each round advances. A merge that overruns the 1024 bytes of `options` or of `tmp_buffer` is `none`,
--   as is the end of fuel. Dhcp/Message builds the messages that are sent, with fill_udphdr of Net/Udp,
--   which models lib/libnet/udp.c. dhcpv4 is left out.
--
--   Net/Tftp models lib/libnet/tftp.c, with tftp_load of lib/libnet/netload.c in Tftp/Errors. The static
--   variables are the record Tftp, and the messages that are sent are listed in it without their bytes.
--   Each round of the loop of tftp is a turn: whether the timer ran out, and what receive_ether brings.
--   The turns are a parameter, and tftp is `none` where they do not suffice, or where a DATA packet without
--   its header makes memcpy run away. Tftp/Ends has its end,
--   Tftp/Data the packets of a file and what becomes of them. get_blksize takes fuel, one more than the
--   bytes of the options, since each round skips one at least. parse_tftp_args is left out.
--
--   Net/Dns models lib/libnet/dns.c: the names of messages (Dns/Names, Dns/Loops), handle_dns (Dns/Answers),
--   urltohost and hosttodomain (Dns/Url, Dns/Hosts), the query and dns_get_ip (Dns/Client, Dns/Query,
--   Dns/Lookup). The static variables are the record Dns; the messages of each second are a parameter. A
--   name that overruns its array is the outcome `crashed`. dns_extract_name takes
--   fuel from the caller, as it need not end; 130 rounds are enough for a name with one reference.
--
--   Net/Arp and Net/Ipv4 model lib/libnet/ipv4.c: the table of ARP entries, a ring, with handle_arp and
--   the part of send_ipv4 that looks a MAC address up or asks for it (Arp/Send), and the header and checksums of a packet with
--   handle_ipv4 and its fragments. The wait of send_ipv4 for an answer and ICMP are left out. A frame that is sent is a value in a list, and a call of a handler
--   above is a value, Handled. The search of the ring takes ten rounds of fuel, its number of entries.
--   The processor has the byte order of the network, so htons and htonl change nothing.
--
-- Tpm models the hash functions of lib/libtpm on lists of bytes: Tpm itself what sha1_do, sha256_do and
--   sha512_do share, which take what differs as the record Hash, and Tpm/Sha1, Tpm/Sha256 and Tpm/Sha512 the
--   functions on a block. Tpm/Padding compares them with the padded message of FIPS 180-4. The boot
--   measurements of tcgbios.c are left out.
--
-- Offsets are `unsigned int` and sizes `unsigned long`: their wrap-around is written out. An `int`
-- is kept as the bits of its pattern; the lengths of C strings, which lib/libc/string keeps in an `int`,
-- are plain numbers, so those functions are modelled for strings of fewer than 2 ^ 31 characters.
--
-- Not modelled: the Forth code, assembly, device drivers, the rest of the network stack, USB, boot measurements, the
-- x86 emulator and the tools that build images.
pub mod Prelude
pub mod Tpm
pub mod Libc
pub mod Bitmap
pub mod Nvram
pub mod Net
