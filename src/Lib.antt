-- ===== src/Lib.antt =====
-- kinOS, an operating system for x86-64: a micro-kernel (kernel/), servers that run as tasks and
-- answer messages (servers/), and what both share (libs/). The files here model its own logic; each
-- definition is written from the function of the same name in the C++ source.
--
-- The parts and where they are modelled:
-- - Base: names that all share, tests on numbers, lists, and the bits of a word.
-- - Error, Message: kernel/error.hpp and libs/common/message.hpp, data only.
-- - Memory: kernel/memory_manager.cpp, the bitmap of physical frames. Memory/Bits has the laws of the
--   bits, Memory/Search what the search finds, Memory/Laws what calls in turn come to, Memory/Map the
--   set-up from the firmware's memory map, kernel/memory_map.hpp.
-- - Paging: kernel/paging.cpp and paging.hpp, the page tables. Paging/Clean, Write and Identity have
--   the cleaning of maps, copy on write with page faults, and the identity table; Fields the bit
--   fields, Numbers the pages of an entry, Extends what every step keeps, Entry, Flags, Says and Setup
--   the proof of `SetupPageMaps`, Ways and Copy that of `CopyOnePage`, Fault the page fault, and
--   Share, CopyMaps and CopyLoop the copy of maps.
-- - Task: kernel/task.cpp, the scheduler. Task/Manager has the operations, Task/Buffer the tasks'
--   buffers. Task/Invariant says what a valid state is; Task/Rotate, Valid, Wake, Sleep and Finish
--   show what each operation does and keeps; Task/Reach closes them under sequences of calls,
--   Task/Fair shows that the tasks of a level take turns, and Task/Receive has the two system calls of
--   kernel/syscall.cpp that wait for messages.
-- - Args: MakeArgVector of kernel/system.cpp, the arguments of a new application. Args/Words has the
--   loop, Args/Laws what the application finds.
-- - Timer: kernel/timer.cpp, the queue of timers. A tick sends messages to tasks and says whether the
--   task timer was due, upon which the interrupt handler calls `SwitchTask`.
-- - Usb: kernel/usb/memory.cpp, kernel/usb/arraymap.hpp and kernel/usb/xhci/ring.cpp, the driver's
--   allocator, its map, the ring that the controller reads and the one that it writes (Usb/EventRing).
-- - Am: servers/am, the application manager. Am/Apps has the applications of appmanager.cpp and the
--   descriptors that they share, Am/Pipe and Am/Fat the descriptors of filedescriptor.cpp: the pipe
--   between two applications, the file and the terminal.
-- - Am/Server: its states, serverstate.cpp, with the fields of am.hpp: Am/Server/Receive, Handle (and
--   Handle/Start, Handle/Files) have the three methods of every state, Am/Server/Run the loop of
--   am.cpp as a step relation. Phase, Valid, Files, Keeps, Starting and Sound build up to its
--   invariant, Safe says what follows for the end of an application, and Execute follows a command
--   through the states.
-- - Fs: servers/fs/fs.cpp, the FAT of a volume behind a buffer of one sector (Fs/Table), the chains of
--   clusters (Fs/Chain, Fs/Extend), the names of entries (Fs/Names), paths (Fs/Entry), and the place
--   of a cluster's sectors (Fs/Volume). Fs/Data has the bytes of clusters, Fs/Find the search for a
--   path. Of the server's states, servers/fs/serverstate.cpp, Fs/Exec has the answer to a command,
--   Fs/Load the copy of a program to the buffer of its task, and Fs/Read the reading of a file:
--   Fs/Read/Laws a cluster, Clusters the chain, and File the way from an application's request to its
--   bytes.
-- - Gui: servers/gui/layer.cpp, the layers of the graphical server and the active one. Gui/Stack has
--   the stack as a list, Gui/Laws what each method keeps, Gui/Reach the states that calls reach,
--   Gui/Active the active window.
--
-- How code becomes definitions: a class is a record, a method a function from the state to the answer
-- and the state after it. A C++ error is a value of `Error`. A pointer to a task is its id, a shared
-- pointer to a descriptor its place in a store. Messages that are sent are returned, each with its
-- receiver. What another server answers while a method waits is an argument. Undefined behaviour, such
-- as a null pointer, `front()` of an empty queue or a string that runs over its array, is the answer
-- `none`; where a definition goes on instead, as for a single bit beyond the frame map, its file says
-- so. Numbers are natural numbers; where the source wraps around or cuts to 32 or 64 bits, `% 2 ^ w`
-- is written out.
--
-- Loops with a test are recursion on fuel. The search for frames has the size of the range for fuel, a
-- tick the length of its queue plus one, and the end of an application the number of applications plus
-- one, which are shown to be enough. The loop of `SetupPageMap` has 512 rounds, one for each entry of
-- a map, also shown to be enough, and the loop over a command's arguments one round more than there
-- are characters. The loops along the clusters of a file or a directory have one round more than there
-- are clusters, the search for a path one call more than the path has names. The loops over the FAT
-- have no bound in the source; their theorems ask for fuel for the chain's length and for as many free
-- clusters as are wanted within the fuel.
--
-- Not modelled: registers and stacks of tasks, the controllers' registers, and what only sets up
-- hardware (segments, interrupts, ACPI, PCI, the boot loader); the loading of ELF files; the other
-- states of the file system server and what it writes to directories; windows, the mouse and the loop
-- of the graphical server; the terminal. Of the libraries under tools/ nothing is modelled, since they
-- are not code of the project.
pub mod Base
pub mod Error
pub mod Message
pub mod Memory
pub mod Paging
pub mod Args
pub mod Task
pub mod Timer
pub mod Usb
pub mod Am
pub mod Fs
pub mod Gui
