-- ===== src/Lib.antt =====
-- mkrn: the kernel under src/kern, its memory management, capabilities, scheduler, screens,
-- interrupts, clocks and log, and programs under src/bin and src/usr.bin.
--
-- Parts and files
--   Libkern      src/kern/subr_libkern.c: memcpy, memmove and memset over a memory of bytes, and
--                in Libkern.Strings memcmp and the functions on strings.
--   Prf          src/kern/subr_prf.c: kputnum, kputs and kvprintf, as the list of characters that
--                they print. va_arg() is the record `VaList`.
--   Pmm          src/kern/subr_pmm.c: the bitmap of physical pages. `Pmm` holds the static
--                variables and the memory in which the bitmap stands; each function of the file
--                has its name here.
--   PmmBoot      src/kern/amd64/pmm_boot.c and machine/multiboot.h: from the boot loader's blob to
--                the calls of Pmm. PmmBoot.Blob reads a blob as the list of its tags; PmmBoot.Regions
--                and PmmBoot.Safety follow the state of Pmm through the calls.
--   Pmap         src/kern/amd64/pmap.c and subr_vmm.c: the page tables, as words of memory.
--                Pmap.Entry reads them as the entry of each virtual address. Tables come from a
--                page allocator that is an argument; in Pmap.Pages and Pmap.Places it is that
--                of Pmm, and Pmap.Init is about pmap_init over it.
--   Kmalloc      src/kern/subr_kmalloc.c: the kernel heap. `Kheap` holds the headers by address,
--                heap_head and the interrupt flag. Kmalloc.Tiles reads a heap as a list of blocks
--                that tile it, Kmalloc.Live as the list of blocks in use; the other children carry
--                kmalloc and kfree over to these lists. Kmalloc.Init puts kheap_init on Pmm and
--                Pmap.
--   KernelHeap   what a user of the heap may rely on, as a record of operations and laws;
--                Kmalloc.Client fills it.
--   Cap          src/kern/subr_cap.c and sys/cap.h: capability tables, over any KernelHeap.
--                Cap.Epoch reads a table as a map from handles to capabilities.
--   Thread       src/kern/subr_thread.c and sys/thread.h: tasks, threads and the scheduler.
--                `Sched` holds the structs by address and the static variables; the memory
--                services are the record `Memory`, which Thread.Machine fills with Kmalloc, Cap, Pmm
--                and Pmap. Thread.Ring reads the `next` pointers as a list.
--   Cpu          machine/cpufunc.h: the instructions for ports and the counter, a record over a
--                machine that the drivers do not look into.
--   Tsc          src/kern/amd64/tsc.c: the boot clock and its 64-bit division.
--   Vga          src/kern/amd64/vga.c: the text screen, as cells by index.
--   Font, Fb     src/kern/subr_font.c, sys/font8x8.h and amd64/fb.c: glyphs in a framebuffer and
--                the console on it; Fb scrolls with the memmove and memset of Libkern.
--   Segments     src/kern/amd64/gdt.c and idt.c: the tables of the processor.
--   Pic          src/kern/amd64/pic.c: the interrupt controllers.
--   Trap         src/kern/amd64/trap.c, irq.c and pit.c: exceptions, the dispatch of interrupts
--                over Pic, and the timer.
--   Console      src/kern/amd64/cons.c: kputc() over the two screens.
--   Log          src/kern/subr_log.c: the lines of the log, over Prf, Console and Tsc.
--   Stop         src/kern/amd64/reboot.c and subr_panic.c: reboot, poweroff and panic. Stop.Ports
--                runs the first two on a machine that records the accesses to its ports.
--   Main         of src/kern/main.c the calls of pmm_bootstrap and pmap_init, and the mapping of the
--                boot loader's framebuffer. Main.Paging and Main.Framebuffer put PmmBoot, Pmm and
--                Pmap together by Pmap.Pages and Pmap.Places.
--   Path         src/usr.bin/basename/basename.c and src/usr.bin/dirname/dirname.c: what the two
--                programs print.
--   FileMode     the mode bits of sys/stat.h, for the programs below.
--   Mkdir        src/bin/mkdir/mkdir.c. Mkdir.Grammar has the grammar of symbolic modes; Mkdir.One
--                and Mkdir.Tree run mkone and makepath over system calls that behave as POSIX says.
--   Rm           src/bin/rm/rm.c, over system calls that are an argument.
--   Copy, Cat    src/bin/cat/cat.c; Copy is its loop of read() and write(), Cat.Operands is about
--                the loop over the operands.
--   Cp           src/bin/cp/cp.c, with that loop: Cp.Source has copy_source, copy_dir and main,
--                Cp.Regular is about the copy of one file.
--   Ls           src/bin/ls/ls.c; Ls.Format is src/bin/ls/format.c, and Ls.Stack and Ls.Descent
--                follow the stack of visited directories.
--   Touch        src/usr.bin/touch/touch.c; Touch.Stamp and Touch.Iso are about the times of -t and
--                -d. mktime() is an argument.
--   Prelude      the names that all of these share.
--
-- Numbers are natural numbers with the wrap-around of the source's types written out: the target
-- is i386, with 32 bits for size_t, unsigned long and pointers. A panic() is the value `panic` of
-- `Outcome` with the place as a name; trap_handler, which always panics, returns what it prints.
--
-- Fuel: the walks over the header list (find_fit, find_prev) run on `heap_fuel` rounds. A header
-- and its block take at least 32 bytes of the heap's 1 MiB, so that 65537 rounds reach the end of
-- every heap that is tiled. kputnum has 32 rounds, one for each binary digit, and kvprintf one
-- more than the format has characters. The walks over the tags of a blob have one round for each
-- of its bytes, and those over a memory map one for each byte of its tag; a tag takes at least 8
-- bytes. The loops of the string functions run on as many rounds as there are addresses. The
-- loops of mkdir have a round for each character. The calls of rm are as deep as PATH_MAX, since
-- the path of a child is longer than its parent's; those of listdir as there are directories, since
-- a directory is not entered two times; and the copying loop has a round for each byte of the input
-- and one for its end. The calls of copy_source are as deep as an argument says: cp puts no bound
-- on them. The loop over the pages of the framebuffer needs more rounds than it has pages. All
-- other loops have a count from the source.
--
-- Not modelled: the order of the other initialisation calls in main.c and its smoke tests, which
-- print what the other parts return; the assembly files; and foo, which prints one line. getopt()
-- and the switches of mkdir, ls and touch over its letters, what is written to stderr, and the C
-- library's texts of numbers, dates and owners are left out or are arguments. swtch() is assembly:
-- what it saves of the old thread is in Thread, the registers of the processor are not. A page fault
-- is modelled where a new page table is cleared; other accesses at physical addresses are taken to
-- reach their memory. In the kernel's other files klog() lines are left out.
pub mod Prelude
pub mod Libkern
pub mod Prf
pub mod Pmm
pub mod Kmalloc
pub mod KernelHeap
pub mod Cap
pub mod Thread
pub mod Pmap
pub mod PmmBoot
pub mod Cpu
pub mod Tsc
pub mod Vga
pub mod Font
pub mod Fb
pub mod Segments
pub mod Pic
pub mod Trap
pub mod Console
pub mod Log
pub mod Path
pub mod FileMode
pub mod Mkdir
pub mod Rm
pub mod Copy
pub mod Cat
pub mod Ls
pub mod Touch
pub mod Cp
pub mod Stop
pub mod Main
