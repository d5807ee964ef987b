-- ===== src/Lib.antt =====
-- Models of the Python scripts of wali-lib: the generator of the system call stubs, the list of
-- the traced system calls, the profile of their overhead, the conversion of the table of their
-- numbers, the configuration of the Rust compiler, and the toolchain files. A text is the list of
-- its code points (Base.Equality), a Python dict an association list in insertion order
-- (Base.Dict), a computation that may raise a Result (Base.Results), and one that writes files as
-- well a Run, which gives the files back beside the result, so that what was written before an
-- exception stays written (Base.Files). Text and its children hold what the scripts call of
-- Python's library on texts: the methods of str (Text, Text.Split), int and str of numbers
-- (Text.Decimal), str.format (Text.Format) and textwrap.dedent (Text.Dedent). TOML documents are
-- in Toml, for two scripts. Only ASCII digits count as digits.
--
-- utility/parse_syscalls.py is Trace and its children.
--   Trace.Table: the dict syscall_desc, entry by entry, and its inverse syscall_nrs.
--   Trace: main, with read_trace for the part of its loop that reads one file. The files that
--     glob finds are a list of lists of lines, and the content of syscall_list.txt before the
--     run is an argument.
--   Trace.Rows, Trace.Collecting, Trace.Sorting, Trace.Order, Trace.Outcome: the proofs.
--
-- scripts/autogen.py is Autogen and its children. A row of the table of the system calls is the
-- record Row: every column of scripts/csvs/syscall_full_format.csv has an empty cell, so pandas
-- gives every cell as a text. The tables of the templates are the record Types, a parameter of
-- what uses them.
--   Autogen.Types: parse_type_file on the content of a template, with the matching of its
--     regular expression, and the tables BASIC_TYPES, COMPLEX_TYPES, COMBINED_TYPES and
--     WIT_PRIMITIVE_SET.
--   Autogen.Args: get_scargs, ptr_anonymize and rustify_args. The while loop of rs_simplify
--     runs on a number of rounds, simplify_fuel, beyond which the result is the error diverges.
--   Autogen.Stubs: syscall_iter and gen_and_write, for any stub function.
--   Autogen.Libc, Autogen.Wamr, Autogen.ArchDiff, Autogen.Wit: gen_libc_stubs, gen_wamr_stubs,
--     gen_arch_diff_stubs and gen_wit_stubs, each with its local functions. A path is a text.
--   Autogen.Wit.Records: the records that the interface needs and the template lacks, which
--     gen_wit_stubs only logs.
--   Autogen.Markdown: gen_markdown_stubs. The calls of an architecture, which the package
--     system_calls has, and the table that pandas prints are the record Packages, a parameter.
--   Autogen.Main: main, with parse_csv, the stubs that parse_args selects, and the reading of
--     the templates when the script starts. What read_csv gives for a content is a parameter.
--   Autogen.Wit.Arrays: the regular expression that finds the arrays of the interface, and
--     their replacement.
--   Autogen.Types.RoundTrip, Autogen.Args.Halting, Autogen.Args.Kinds, Autogen.Args.Laws,
--     Autogen.Stubs.Laws, Autogen.Libc.Laws, Autogen.Libc.Outcome, Autogen.Libc.Partial,
--     Autogen.Wamr.Arity, Autogen.ArchDiff.Laws, Autogen.Wit.Sorted, Autogen.Wit.Methods,
--     Autogen.Wit.Names, Autogen.Wit.Outcome, Autogen.Wit.Arrays.Tuples,
--     Autogen.Wit.Records.Blocks, Autogen.Wit.Records.Missing, Autogen.Markdown.Support,
--     Autogen.Main.Confined, Autogen.Main.Frame, Autogen.Main.Outcome,
--     Autogen.Main.Outcome.Contents, Autogen.Args.Fit, and the module Success of each generator
--     and of Autogen.Main: the proofs. Base.Files.Keeps and Base.Files.Confined have the rules
--     for runs that change and read only some files.
--
-- scripts/rustc_config.py is Rustc and its children. What the script takes from outside, the toml
-- package, pathlib, the output of llvm-config and the home directory, is the record Outside, a
-- parameter; a file that is not there makes open raise, and a directory that is not there is not
-- modelled.
--   Rustc.Sections: the step that the script repeats, to make a missing section and to update
--     it.
--   Rustc: update_config_toml, update_base_cargo_toml, update_bootstrap_cargo_toml,
--     add_wasm_linker_to_cargo and main. update_base_cargo_toml and update_bootstrap_cargo_toml
--     differ in the patch and the directory, so both are patch_cargo_toml; the arguments that
--     they do not use are left out.
--   Toml.Laws, Rustc.Sections.Laws, Rustc.Laws, Rustc.Patches, Rustc.Runs, Rustc.Outcome,
--     Rustc.Linker: the proofs.
--
-- toolchains/gen_toolchains.py is Toolchains and its children. What the script takes from
-- outside, the tomllib package, pathlib, str of a list or a dict, and the formatting of a field
-- that is more than a name, is the record Outside of Toolchains.Config, a parameter. A number or
-- a date of the configuration is its text.
--   Toolchains.Config: the reading of the configuration, the triple and the flags before they
--     are formatted.
--   Toolchains.Templates: the three files, line by line.
--   Toolchains: main.
--   Toolchains.Triple, Toolchains.Layout, Toolchains.Formats, Toolchains.Reading,
--     Toolchains.Generates, Toolchains.Outcome: the proofs.
--
-- scripts/convert_syscalls.py is Convert and its children. The operations of pandas on data
-- frames are the record Pandas, a parameter, and what it documents of them, by the cells of the
-- rows and the labels of the index, is the hypothesis IsPandas; astype holds the integers of 64
-- bits. The text of a table of lines is a parameter too.
--   Convert: main.
--   Convert.Cells: the laws of pandas, and what becomes of a cell.
--   Convert.Sorted, Convert.Written: the proofs.
--
-- scripts/process.ipynb is Profile and its children. The overheads are floating-point numbers:
-- their type, the quotient, the order and the text of one are parameters.
--   Profile: the cell that reads the profile and the names.
--   Profile.Table: the printed table, line by line, and the entry of fork.
--   Profile.RoundTrip, Profile.Table.Order: the proofs.
--
-- Not modelled: the calls of mkdir, chmod and logging, failures of the file system, what pandas
-- does, the parsing of the command lines, and the C code under wali_shims, tests and misc.
pub mod Base
pub mod Text
pub mod Toml
pub mod Trace
pub mod Autogen
pub mod Profile
pub mod Rustc
pub mod Toolchains
pub mod Convert
mod Tests
