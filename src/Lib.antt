-- ===== src/Lib.antt =====
-- A verification library for the hosts that run compiled modules, the C code under tools/.
--
-- The native host, tools/native-host.c, is linked with a module translated to C. It parses argument
-- specs, places lists, trees, records, arrays and bytes in the module's memory through the module's
-- `alloc` export, calls an export, and checks and prints the results. The Wasmtime host,
-- tools/wasmtime-host.c, does the same for a WebAssembly module, and adds WASI, a control output
-- that records how the guest ended, allocator checks, and a script mode. tools/baremetal holds the
-- C library and the reports of the native host's build without an operating system.
-- tools/cuda-host.c and tools/webgpu-host.c run GPU kernels, once or in a session that keeps named
-- buffers.
--
-- Base: tests, lists, 64-bit words, commands (`Run`, `Cmd`: a value, an exit status, or no fuel),
-- and the C library's decimal prints and `strtoull`.
--
-- Native: tools/native-host.c. Native/Machine is the state (lx_status, lx_pages, lx_mem, the
-- globals, the standard streams and files) and the ways to end; Native/Memory has check_range,
-- write_u64_at and read_u64_at; Native/Parse the readers of numbers, hexadecimal, lists, tokens and
-- files; Native/Alloc the alloc_* functions; Native/Show the print_* functions and save_u64_array;
-- Native/Call the argument specs, result kinds, call_export, host_start and main; Native/Bench is
-- tools/native-bench.c. Each function keeps its name. Native/Show/Ends and Native/Alloc/Ends are
-- about the rounds of the prints and of the reading of trees. Native/Heap has the contract of a
-- module's `alloc` (`Allocator`: with no block on the free list, a call for a positive number of
-- bytes gives a fresh block with a header), and what a list or a tree in memory is.
-- Native/Heap/Runtime is the `alloc` that the compiler puts into a module
-- (LeanExe/Runtime/Defs.lean), where the free list is empty and blocks end below 2^32; what it does
-- elsewhere is a parameter.
--
-- Wasm: tools/wasmtime-host.c. Wasm/Machine is the state and what Wasmtime, WASI and the operating
-- system answer; Wasm/Outcome has finish_host, die, check_outcome and call_func; Wasm/Parse the
-- readers; Wasm/Start configure_wasi, init_runtime and the calls of exports; Wasm/Memory and
-- Wasm/Alloc the memory and the alloc_* functions; Wasm/Walk the walk_* and print_* functions of
-- lists and trees; Wasm/Show arrays and bytes; Wasm/Args, Wasm/Kinds and Wasm/Results parse_arg and
-- place_args, result_slots, and print_call_results; Wasm/Call call_export, bench_export and
-- read_global_u64; Wasm/Checks the command_* functions other than the script; Wasm/Script,
-- Wasm/Commands and Wasm/ScriptLoop command_script; Wasm/Main parse_options and main.
--
-- Baremetal: tools/baremetal/libc/libc.c (Uart: streams, malloc, calloc; Libc: strings, strtoull,
-- the argument block; Format: vformat) and the two report.c files (Report).
--
-- Gpu: tools/cuda-host.c and tools/webgpu-host.c. Gpu/Machine is the state (the calls of the GPU
-- interface so far, the table of a session, the standard streams and files), Gpu/Table is entries_
-- and entryCount_, Gpu/Words parse_word and the loops over the words of a specification and over
-- the words of a line, Gpu/Loop the loop of session over standard input. Gpu/Cuda has check,
-- read_file, parse_buffer, info, run, the table's functions, the commands of session, and main;
-- Gpu/Webgpu the same of the other host, with the callbacks and the loops that wait for them.
-- Gpu/Machine/Triples has what commands do with the calls and the table, and Gpu/Cuda/Queue when a
-- call may release what queued work uses, Gpu/Cuda/Memory which blocks of the device's memory are
-- allocated and which of them the table owns; Gpu/Webgpu/Ends is about the loops that wait.
--
-- Loops whose length the code does not bound by a counter run on fuel. A tree description is read
-- with one round more than its text has bytes, and each level reads a token. The walks of lists and
-- trees get one round more than their tests against the memory's size allow. The script loop and
-- the sessions of the GPU hosts get one round for each byte of input and one more. The loops of
-- tools/webgpu-host.c that wait for a callback get the number of rounds that the interface's model
-- names.
--
-- Parameters: the module's functions, Wasmtime, WASI, the CUDA driver, wgpu-native, the clock,
-- `atof`, and files as the C library's calls answer for them. Not modelled: failure of allocation
-- in the host's own heap, the text that `perror` adds, the release of Wasmtime's objects, the body
-- of the usage message, assembly, and the Lean sources other than
-- the `alloc` of the modules.
pub mod Baremetal
pub mod Base
pub mod Gpu
pub mod Native
pub mod Wasm
