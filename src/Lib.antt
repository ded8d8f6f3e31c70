-- ===== src/Lib.antt =====
-- cctop, a terminal monitor of the load of a macOS system.
--
-- The program polls the system about once a second and redraws the terminal. Each component has a
-- module, with child modules for its parts and for what is proved of them:
--   Terminal     what the program is built on: ncurses, printf, the clock, floating point numbers
--   Console      lib/Console.h and lib/Console.cpp, class Console (Modes, Output, Gauge, Input, Session
--                and Size have its operations; Pairs has the table of colour pairs, which `#if 0`
--                leaves out of the program)
--   Debug        common/Debug.h and common/Debug.cpp, class Debug, the log file
--   Options      lib/Options.h and lib/Options.cpp, class Options
--   Help         lib/Help.h and lib/Help.cpp, class Help
--   Parser       lib/Parser.h and lib/Parser.cpp, classes Line and Parser, and their memory (Store)
--   Sampler      what the classes CPU, Disk and Network share: the maps last, current and delta,
--                `copy` and the loop of `update`. An instance of Stat gives the class of the entries
--   Cpu          macos/CPU.h and macos/CPU.cpp, classes CPUCore (Core, Print) and CPU
--   Disk         macos/Disk.h and macos/Disk.cpp, struct DiskStats (Stats) and class Disk
--   Network      macos/Network.h and macos/Network.cpp, structs Interface (Traffic) and class Network
--   Memory       macos/Memory.h and macos/Memory.cpp, class Memory
--   ProcessList  macos/ProcessList.h and macos/ProcessList.cpp, Process (Entry), `username` and
--                `groupname` (Users), class ProcessList
--   VirtualMemory  macos/VirtualMemory.h and macos/VirtualMemory.cpp, left out of the program by `#if 0`
--   Platform     macos/Platform.h and macos/Platform.cpp, classes BatteryInfo and Platform, the power
--                sources and the uptime (Sources)
--   Loop         main.cpp, a pass of `loop` with all the objects
--   Main         main.cpp, `main`: the question, the rounds with the wait for a key and the key; Boot has
--                the constructors of the objects, Program whole runs, Safety, Quitting, Going,
--                Restored and Written what holds of them
--   Prelude, Map, Sort   shared names and lemmas, std::map, std::sort and qsort
--   Tests        the theorems at concrete inputs
--
-- A method is a function from the state of its object to the new one. Where it uses the console, the
-- console is passed through it, and keeps the library calls that were made, the latest first; what the
-- library answers is a function of the calls before (Terminal.Env). What IOKit, sysctl, libproc and
-- the account databases answer is an argument. A statement that uses a null pointer makes the result
-- `none`; `exit` makes it `exited`, with the status and the console as its destructor leaves it.
--
-- Unsigned words are numbers with the wrap-around written out. The counts of lines, `uint16_t` in the
-- source, are not reduced: they are far below 65536 unless there are that many drives or interfaces.
-- A `double` is the expression that the code evaluates. Loops are recursive on their data or on
-- a count; the wait for a key recurs on fuel; a fuel above the timeout in milliseconds and what
-- there is to spare (`spare` of Terminal.Env) for polls that are ignored and a clock that is set is
-- enough (Console.Waiting), and `main` gives it one more than both. The bar of a core
-- recurs on 21, enough for its 20 cells (Cpu.Bar). A run of the program is a list of events: a round
-- with the answers of the system, or a signal. The order of an unordered_map is not specified, and
-- that of the keys is taken. The functions of Console do not pass on the log that two of them write
-- to: what the gauge writes there is `gauge_text` of Debug.
--
-- Not modelled: the build without ncurses and macos/Battery.cpp, which is compiled out;
-- common/Docker.cpp, which nothing calls; `sample` of macos/CPU.cpp, which nothing reads; the
-- handles of IOKit in macos/Disk.cpp; the process table that Platform::update fetches and nothing
-- reads; signals other than between two rounds; which allocator a block of memory is from,
-- and the memory of other classes than Parser.
pub mod Console
pub mod Cpu
pub mod Debug
pub mod Disk
pub mod Help
pub mod Loop
pub mod Main
pub mod Map
pub mod Memory
pub mod Network
pub mod Options
pub mod Parser
pub mod Platform
pub mod Prelude
pub mod ProcessList
pub mod Sampler
pub mod Sort
pub mod Terminal
pub mod Tests
pub mod VirtualMemory
