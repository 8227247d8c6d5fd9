-- ===== src/Lib.antt =====
-- A model of the MegaOS kernel, from the loader's jump to `_start` up to its endless loop and the
-- interrupts behind it, with the theorems that make its parts correct.
--
-- A run is a function from a `Machine` to an `Outcome` (Prelude/Monad.antt): it returns a value, or it
-- stops for good in `cpu::halt`, by a fault (a null or dangling pointer, an index out of bounds), or by
-- waiting for ever. The machine (Machine.antt) holds the static variables of all files, the interrupt flag
-- and the trace of what the kernel did to the outside: port accesses (kernel/arch/x86_64/cpu.hpp), calls of
-- the bootloader's terminal function, and loads of descriptor tables. What a port answers is a parameter,
-- a function of the trace (`Env`); Machine/Runs.antt says what an observer sees of a run, the characters on
-- the terminal and the bytes at a port.
--
-- The parts, and how they call one another:
--   Printf: `_vsnprintf` of kernel/logging.cpp over any output function. Output has `_out_rev`, Integer has
--     `_ntoa_format` and `_ntoa_long`, Directive reads flags, width, precision and length, Format has the
--     conversions and the loop. Format/Formats relates a format and its arguments to the text they
--     describe, Format/Typed checks the arguments by the characters of
--     the format, and Format/Pieces puts formats together. Integer/Readback and Format/Hex read numbers back.
--     Format/Field describes the field of an integer as the C standard does, Format/Spelled how a directive is
--     spelled, and Format/Described the text of a format, all without the functions of the program;
--     Format/Standard and Format/Reading compare the program with the first two.
--     Format/Keeps follows the state through the runs of any format. Double has the operations on `double`
--     that the code uses, Fixed the part of `_ftoa` that writes all digits, Exponential `_etoa` over any
--     `_ftoa`, and Float the two together with their cases of `_vsnprintf`.
--   Log: the output functions of kernel/logging.cpp, from characters to `kprintf`, `dprintf` and `snprintf`.
--     Log/Delivery follows characters to the terminal and the serial port, Log/Buffer into a buffer; Log/Bounds
--     has what holds of all formats.
--   Serial: kernel/serial.cpp, with its registers of kernel/serial.hpp.
--   Gdt, Idt: kernel/arch/x86_64/gdt.cpp and idt.cpp. Both report with `dprintf`. Gdt/Reload has the segment
--     registers of kernel/arch/x86_64/lgdt.asm.
--   Pic, Isr: the namespaces `pic` and `isr` of kernel/arch/x86_64/interrupts.cpp. `isr` calls the keyboard's
--     handler, the panic and `send_eoi`. Isr/Assertion has the failed assertions of kernel/definitions.hpp.
--     The handlers are those of a build without MEGA_RELEASE, which the release mode of xmake.lua defines:
--     `assert` is empty there.
--   Frames: the stack that kernel/arch/x86_64/isr.asm builds, the structure that the handlers read there, and
--     what the stubs restore.
--   Interrupt: an interrupt request as a whole, `make_irq_handler` and `handle_irq_common` of
--     kernel/arch/x86_64/isr.asm around the handler. Interrupt/Life has any number of them as a step relation
--     (`Reach`), Interrupt/Session puts them behind the boot, Interrupt/Reentry in the middle of a string.
--     Interrupt/Delivery reads the gates as the processor does, Interrupt/Fatal has the exceptions.
--   Keyboard: kernel/devices/ps2keyboard.cpp. Keyboard/Shift has the machine of two switches.
--   Panic: kernel/panic.cpp. Panic/Report has its texts, Panic/Halts its runs.
--   Boot: `_start` of kernel/kernel.cpp, `log::init`, and `get_tag` of kernel/stivale2.hpp.
--     Boot/Start has the boot that succeeds, Boot/Failure those that halt,
--     Boot/Header what kernel/kernel.cpp asks of the loader.
--   Array: mkl/array.hpp. The tables of the kernel are lists where they stand.
--   Tests: test data, runs, and the theorems at concrete inputs.
--
-- Numbers are natural numbers; each wrap-around is written out. A format is the list of its characters
-- without the NUL; a directive that ends behind the NUL is a fault. An argument is a word of 64 bits or a
-- string; reading one that is not there is a fault.
--
-- The arithmetic of `double` is the processor's. `_ftoa` and `_etoa` are modelled over any type with the
-- operations of Printf/Double.antt; the theorems on rounding suppose that what they are about is exact
-- (`IsExact`, and `IsValuation` for what a double is worth), and Tests/Units.antt is one such type.
-- Both builds of the repository leave the two out, so the kernel's `_vsnprintf` is the one without their
-- cases (`format_out`); `format_float_out` is the other.
--
-- Bounds and fuel: the format loop has the length of the format as fuel, and each round takes at least one
-- character. The loops of `_ntoa_format` have the 32 cells of the buffer, the loop behind a left-justified
-- field has the width. `_ftoa` and `_etoa` call each other as often as their fuel says, and twice is
-- enough for a value that one division brings into the range of `_ftoa`. Waiting for the serial port is
-- bounded by `polls`, and a longer wait is one for ever; theorems on output suppose that the port is ready
-- within the bound. `get_tag` has a number of rounds, which the theorem compares with the length of the
-- list of tags.
--
-- The processor is modelled as far as the code relies on it: an interrupt gate clears the interrupt flag, the
-- five words of `Return` are pushed, and `iretq` takes them back and sets the flag as `rflags` says. An
-- interrupt request comes between two steps of the program that it interrupts, never within a handler.
--
-- Not modelled: the direction flag; the structures of kernel/stivale2.hpp that the kernel
-- neither fills nor reads; the build files.
pub mod Prelude
pub mod Printf
pub mod Machine
pub mod Serial
pub mod Log
pub mod Gdt
pub mod Pic
pub mod Keyboard
pub mod Frames
pub mod Panic
pub mod Isr
pub mod Idt
pub mod Array
pub mod Boot
pub mod Tests
pub mod Interrupt
