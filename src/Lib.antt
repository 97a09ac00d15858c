-- ===== src/Lib.antt =====
-- The reading and writing of files through Linux io_uring, as the programs of this repository do it.
--
-- The main program is example/io_uring_read.c. It maps the two rings that it shares with the kernel
-- (app_setup_uring), opens a file by preparing one block of memory for each BLOCK_SZ bytes of it and
-- putting one readv over all blocks on the submission ring (my_fopen), and hands the bytes out in
-- portions of any size once the completion ring shows the readv's completion (my_fread). cat is its
-- client. host.cpp and device.cpp are the same as a C++ library, split into a part for the host, which
-- waits for the completion, and a part for the device, which reads; main.cpp is its client.
-- example/omp_io_uring_manual.c repeats the set-up and the blocks, and prints what completions
-- bring; example/io_uring_cp.c copies a file with one request at a time. The other programs have no rings
-- of their own: they stand on liburing, on read(2) or on stdio.
--
-- Files of this library:
--   Base          lists, machine integers, bit masks, and Run, the outcome of code that may access
--                 memory it must not (fault) or wait for ever (hang)
--   Kernel        the types and constants of linux/io_uring.h and sys/mman.h, and the record Sys of
--                 the calls that the two programs with rings make of the kernel and of libc
--   Posix         the calls of example/fread.c, and their documented behaviour
--   Liburing      the calls of example/polling.c, and their documented behaviour
--   Reader        example/io_uring_read.c: the state of an open file and the memory shared with the
--                 kernel; Reader/Setup is get_file_size and app_setup_uring, Reader/Open is my_fopen,
--                 Reader/Read is my_fread, Reader/Cat is cat and main. Reader/Spec is the file as the list of
--                 the bytes that its blocks hold, Reader/Open/Queue is the submission ring as a queue,
--                 Reader/Demo and Reader/Tests are concrete runs.
--   Library       my_io.h: an open file of the C++ library; Library/Open and Library/Close are host.cpp,
--                 Library/Device is device.cpp, Library/Cat is main.cpp. They use the definitions of
--                 Reader for the code that the library repeats from it; Library/Device/Same compares
--                 the two versions of my_fread. Library/Tests are concrete runs.
--   Writes        the programs that make one write: Writes/Text is the buffer of decimal lines,
--                 Writes/Numbers is main of example/io_uring_write.c, Writes/Message of
--                 example/omp_io_uring_string.c, Writes/Array of example/omp_io_uring_ptr.c and
--                 example/omp_io_uring_atomic.c, Writes/Target of example/omp_io_uring_writer.c
--   Owners        example/My_read.cpp: the reader with unique_ptr, on the set-up and my_fread of Reader
--   Console       example/omp_io_uring_polling.c: submit_read_request, get_completion_and_print and main, on the
--                 blocks of Reader and the printing of Manual
--   Manual        example/omp_io_uring_manual.c: submit_to_sq, submit_write_request, read_from_cq and
--                 main, on map_rings and fill_iovecs of Reader; one file through the rings in
--                 Manual/Rounds, and several in Manual/Program
--   Plain         example/fread.c: my_fopen, my_fread, my_fclose, my_cat and main
--   Polling       example/polling.c: setup_read, my_fopen, my_fread, my_close and main
--   Buffered      example/io_uring_polling.c: all functions, main in Buffered/Main
--   Repeat        example/io_uring_poll.cpp: all functions, on the calls of Buffered
--   Session       example/omp_sync_task.cpp: all functions, on the machine and the calls of Writes
--   Copy          example/io_uring_cp.c: the copy loop of main, main around it in Copy/Start, and what
--                 it holds in Copy/Held
--
-- Numbers: int, off_t and ssize_t are ℤ where they can be negative, unsigned types are ℕ with the
-- wrap-around written out; BLOCK_SZ is a parameter where a program has one. In Reader and Manual shared
-- memory is a function from addresses to words, submission entries, completion entries and
-- file_info objects (World). What the kernel does between two steps is a parameter of the step: the
-- loads of the shared tail are a function of the number of the load, and the effect of io_uring_enter
-- and of the kernel thread is a function on World. Copy has the same with a record for the few words that
-- its program uses. Writes, Session, Library and Console have what their programs hold as the state,
-- and the results of the calls as a parameter. In the other components the machine is an abstract type, which the calls change,
-- and records of laws say what the calls do to it, as their documentation does.
--
-- Loops: my_fread's copy loop in Reader has a round for each byte asked for and one more, which is enough
-- since each round but the last copies a byte or more; its wait for the completion has a bound
-- `polls`, and running out of it is `hang`. The other loops have their fuel as a parameter.
--
-- Not modelled: the memory barriers (the model is sequentially consistent), messages and the
-- time measurements.
pub mod Base
pub mod Kernel
pub mod Posix
pub mod Liburing
pub mod Reader
pub mod Library
pub mod Writes
pub mod Owners
pub mod Console
pub mod Manual
pub mod Plain
pub mod Polling
pub mod Buffered
pub mod Repeat
pub mod Session
pub mod Copy
