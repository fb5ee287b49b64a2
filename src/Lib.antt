-- ===== src/Lib.antt =====
-- bencode: a C library that parses and writes the Bencode format, and a command-line tool over it.
--
-- The program's parts. The SAX parser (src/parse_sax.c) reads a buffer and calls the caller's
-- callbacks. The DOM parser (src/parse_dom.c) is a set of such callbacks that build a tree of
-- values (src/value.c). The emitter (src/emit.c) walks a tree and hands its canonical encoding to a
-- sink, which may be a file or an allocated buffer. Status codes are shared by all (src/status.c,
-- include/bencode/bencode.h). The command-line tool (src/main.c) reads a file or a stream, parses it,
-- and prints what a subcommand asks for; the example program parses a literal.
--
-- Which file models what:
--   Status          bencode_status as `Error` and `Result`, bencode_status_string
--   Exec            functions that return a status and change a state; `Exec.Ensures` is total
--                   correctness of such a run
--   Grammar         the format itself, independent of the code: values, their canonical encoding,
--                   their depth and their events
--   Decimal         what snprintf prints, and the buffers that hold it (Decimal.Width)
--   KeyOrder        bytes_cmp of src/parse_sax.c and the lexicographic order
--   Sax.State       sax_state: the cursor, the scope stack and the caller's data
--   Sax.Scan        parse_unsigned, parse_int, parse_string; each child proves one of soundness,
--                   acceptance and completeness
--   Sax.Parse       parse_list, parse_dict, parse_dict_key, parse_value, bencode_parse_sax
--   Memory          bencode_alloc, bencode_free, bencode_allocator_check, and the doubling loops
--                   of grow_array and alloc_sink_append
--   Value           bencode_value, its builders (Value.Build), the sorted dictionary
--                   (Value.Dict), the accessors (Value.Access), bencode_value_clone
--                   (Value.Clone) and bencode_value_free (Value.Free); Value.Map is what a
--                   dictionary stands for, a map from keys to values, and Value.Reach the trees
--                   that a caller can make
--   Emit            emit_value and bencode_emit, bencode_emit_to_file; Emit.Alloc is alloc_sink
--                   and bencode_emit_to_alloc
--   Dom             src/parse_dom.c: dom_state with positions for pointers (Dom), the callbacks
--                   and bencode_parse (Dom.Callbacks), and what they build
--   Cli             src/main.c: reading the input (Cli), the printer (Cli.Print), the statistics
--                   (Cli.Walk), the subcommands (Cli.Commands) and the command line (Cli.Main);
--                   the other children prove what they do
--   Example         examples/decode_example.c
--
-- How state corresponds. A pointer into the input is the list of the bytes from there to the end;
-- reading or moving past the end is the outcome `out_of_bounds`. The scope array is a list whose
-- length is `depth`, and a write beyond the array's 256 cells is out of bounds too. A tree owns its
-- nodes, so it is a value; what the heap holds is the number of live blocks, and `alloc` may refuse
-- any request. A callback takes the caller's data and returns it with a status. Arithmetic on
-- `uint64_t` and `size_t` wraps around at 2 ^ 64 (Prelude.Word); a 64-bit platform is assumed.
--
-- Bounds and fuel. The parser's mutual recursion runs on 2 * n + 1 units for n bytes of input: each
-- value and each round of a loop costs one, and each pair of these reads at least one byte. The
-- doubling loops run on 65 units, since a capacity that is not 0 passes SIZE_MAX / 2 within 64
-- doublings. The search in a dictionary runs on its count plus 1. The loop of read_all
-- runs on 2 ^ 64 + 1 units, since each round but the last adds a byte to a buffer of at most
-- 2 ^ 64 - 1. print_value and walk run on one unit more than the tree is deep, and the tool gives
-- them 257.
--
-- Not modelled: bencode_version, whose text the build generates and which is an argument of
-- `main` here, and the programs under tests and benchmarks. `malloc`, the caller's
-- allocator, the callbacks, the sink and the calls of <stdio.h> are parameters; that `main` ignores
-- SIGPIPE means that a broken pipe is an error of an output call.
pub mod Cli
pub mod Decimal
pub mod Dom
pub mod Emit
pub mod Example
pub mod Exec
pub mod Grammar
pub mod KeyOrder
pub mod Memory
pub mod Prelude
pub mod Sax
pub mod Status
pub mod Value
