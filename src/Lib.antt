-- ===== src/Lib.antt =====
-- A model of m68kemu, an emulator of the Motorola 68000 in Go, and theorems about it.
--
-- The program. A CPU (cpu.go) fetches an opcode from a bus (bus.go) of devices, one of which is
-- usually a RAM (memory.go); two tables that init functions fill give the opcode's handler and its
-- cycles; the handler (op_arithmetic.go, op_bit_logical.go, op_control_flow.go,
-- op_data_transfer.go, op_system.go) resolves effective addresses (ea.go), computes, and sets the
-- status register (ssr_helpers.go); errors of the bus become exceptions; between two instructions
-- the interrupt controller (interrupts.go) is asked for a request.
--
-- The files. Base has the tests on numbers, Go's unsigned widths, the laws of the bit operations,
-- signed integers, and the cases of an if, an option and a Boolean (Base/Cases). Operand is
-- operands.go and Status ssr_helpers.go. Effect has the results of Go functions that return an
-- error: a value and a state, or an error and a state, with the rules for a run without an error.
-- Alu has the cores of the arithmetic: Alu/Add (addWithFlags, subWithFlags), Alu/Extend
-- (addWithExtend, subWithExtend), Alu/Bcd (bcdAdd, bcdSub) and Alu/Shift (asl to ror; its laws by
-- kind in Logical, Arithmetic and Rotate); Alu/Spec says what they should compute.
-- Memory has Ram (memory.go), Device, PageMap and Bus (bus.go); PageMap/Laws, PageMap/Search and
-- PageMap/Order are about addPageRange and findPageMappedDevice.
-- Interrupts is interrupts.go; Interrupts/Order follows the requests in the order of their arrival.
-- Decode has the tables: Fields (opcodeMetaTable, validEA), Cycles (the
-- calculators), Registration (registerInstruction, registerLogicalInstruction), one file of
-- registrations for each op_*.go file, Table (opcodeTable, opcodeCycleTable), and Lines, which is
-- about the opcodes without a handler.
-- Cpu has State, Debug (cycles, faults, breakpoints, tracing), Access (read, write, the fast path),
-- Stream (popPc, fetchOpcode, push, pop), Exception and Group0 (exceptions, interrupts, reset), Ea
-- (ea.go), History (appendHistory, History, SetHistoryLimit), the handlers by group (Arithmetic,
-- Multiply, Compare, Extend, Bcd, Logical, Shift, Control, Move, Multiple, System), Dispatch (the
-- functions in opcodeTable), Step (executeInstruction to RunInstructions), Until (RunUntil and the
-- conditions that stop it) and Inspect (DebugState, the accessors, NewCPU). The children of a
-- component hold its laws: Access/Plain and Stream/Plain say what an access does for a processor
-- with a single RAM that nothing watches, Access/Cycle and Access/Agreement compare the fast path
-- with the bus, Stream/Fetch adds the instruction stream, Exception/Frame and Exception/Return
-- follow an exception and its RTE, Control/Link a LINK and its UNLK, Control/Call a BSR and its
-- RTS, Step/Lines, Step/Woken and Step/Stopped are about single steps and the loops of RunCycles
-- and RunInstructions, Until/Reasons, Until/Limit and Until/Steps about the reasons, the limit and
-- the steps of RunUntil, Interrupts/Order about the order in which requests arrive.
-- Scheduler is scheduler.go; its callbacks are a function on the scheduler, as a parameter.
-- Verbose is verbose.go: the disassembly of an instruction and of a range, with the decoder of the
-- package m68kdasm as a parameter; Verbose/Format has the String and Error methods of cpu.go and
-- Verbose/Logger the text that VerboseLogger.Trace writes.
-- A function has the Go name in this library's spelling, and a record the fields of the struct.
--
-- How it is modelled. A uint8, uint16 or uint32 is a natural number with the wrap-around written
-- out; an int32 register is its bit pattern. The register files and the memory are functions of an
-- index. A run-time panic is the error `panicked`. A device is a RAM, a peripheral that answers
-- by the history of its accesses, or a mapped device; it is attached to one bus once. The bus of a
-- CPU is always a Bus. Callbacks are a log of calls: they do not call the CPU back. The scheduler
-- of a CPU is the log of its Advance calls. The trace structs lack the instruction's bytes and
-- mnemonic, which an external disassembler makes.
--
-- Fuel. Loops over a counter recur on it. findPageMappedDevice, a binary search, gets one unit of
-- fuel more than there are ranges. RunCycles, RunUntil and Advance of the scheduler have fuel as an
-- argument, and an option as result. RunUntil with a limit needs one unit more than the limit;
-- Advance needs one for each waiting event if the callbacks schedule none; DisassembleMemoryRange
-- needs one for each byte of the range.
--
-- Not modelled: cmd/qsortdemo, a program that loads an image and prints; and the copies of slices
-- (cloneHistoryEntry and the like), which are values here.
pub mod Base
pub mod Operand
pub mod Status
pub mod Effect
pub mod Alu
pub mod Memory
pub mod Interrupts
pub mod Decode
pub mod Cpu
pub mod Scheduler
pub mod Verbose
