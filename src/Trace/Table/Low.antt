-- ===== src/Trace/Table/Low.antt =====
-- Entries 0 to 114 of `syscall_desc` (utility/parse_syscalls.py).
use wali_lib.Base.{ℕ, Str, lit, [], ◌∷◌}
use wali_lib.Base.Dict.{Dict}

unfoldable pub syscall_desc_low : Dict ℕ (Str × Str)
unfolding lit
syscall_desc_low =
    (0, (lit "read", lit "Read from file"))
    ∷ (1, (lit "write", lit "Write to file"))
    ∷ (2, (lit "open", lit "Open or create file"))
    ∷ (3, (lit "close", lit "Close file descriptor"))
    ∷ (4, (lit "stat", lit "Information about file"))
    ∷ (5, (lit "fstat", lit "stat but uses fd"))
    ∷ (6, (lit "lstat", lit "stat but for symlink returns link info"))
    ∷ (7, (lit "poll", lit "Wait for event on fd"))
    ∷ (8, (lit "lseek", lit "Set offset of fd"))
    ∷ (9, (lit "mmap", lit "Map files/devices into memory"))
    ∷ (10, (lit "mprotect", lit "Adjust protection on memory region"))
    ∷ (11, (lit "munmap", lit "Unmap files/devices"))
    ∷ (12, (lit "brk", lit "Set process data segment break"))
    ∷ (13, (lit "rt_sigaction", lit "Change action for signal"))
    ∷ (14, (lit "rt_sigprocmask", lit "Get and/or set signal mask of thread"))
    ∷ (15, (lit "rt_sigreturn", lit "Return from signal handler and clean stack frame"))
    ∷ (16, (lit "ioctl", lit "Set parameters of device files"))
    ∷ (17, (lit "pread64", lit "Read from file at offset"))
    ∷ (18, (lit "pwrite64", lit "Write to file at offset"))
    ∷ (19, (lit "readv", lit "Read from file/device into multiple buffers"))
    ∷ (20, (lit "writev", lit "Write to file/device from multiple buffers"))
    ∷ (21, (lit "access", lit "Checks if process can access file path"))
    ∷ (22, (lit "pipe", lit "Create pipe"))
    ∷ (23, (lit "select", lit "Wait for fd to become ready for IO"))
    ∷ (24, (lit "sched_yield", lit "Yield CPU time back to kernel"))
    ∷ (25, (lit "mremap", lit "Shrink/Enlarge memory region"))
    ∷ (26, (lit "msync", lit ""))
    ∷ (27, (lit "mincore", lit ""))
    ∷ (28, (lit "madvise", lit "Advise kernel how to use memory segment"))
    ∷ (29, (lit "shmget", lit ""))
    ∷ (30, (lit "shmat", lit ""))
    ∷ (31, (lit "shmctl", lit ""))
    ∷ (32, (lit "dup", lit "Duplicate file descriptor"))
    ∷ (33, (lit "dup2", lit "Duplicate with provided new fd"))
    ∷ (34, (lit "pause", lit ""))
    ∷ (35, (lit "nanosleep", lit ""))
    ∷ (36, (lit "getitimer", lit ""))
    ∷ (37, (lit "alarm", lit "Generate SIGALRM"))
    ∷ (38, (lit "setitimer", lit ""))
    ∷ (39, (lit "getpid", lit "Get process ID of calling process"))
    ∷ (40, (lit "sendfile", lit ""))
    ∷ (41, (lit "socket", lit "Create socket"))
    ∷ (42, (lit "connect", lit "Socket connect"))
    ∷ (43, (lit "accept", lit "Accept socket connection"))
    ∷ (44, (lit "sendto", lit "Send message on socket"))
    ∷ (45, (lit "recvfrom", lit "Receive message from socket"))
    ∷ (46, (lit "sendmsg", lit "Send message+additional data to socket"))
    ∷ (47, (lit "recvmsg", lit "Send message+additional data from socket"))
    ∷ (48, (lit "shutdown", lit ""))
    ∷ (49, (lit "bind", lit "Socket bind"))
    ∷ (50, (lit "listen", lit ""))
    ∷ (51, (lit "getsockname", lit "Get socket name"))
    ∷ (52, (lit "getpeername", lit "Get name of connect peer socket"))
    ∷ (53, (lit "socketpair", lit ""))
    ∷ (54, (lit "setsockopt", lit "Set socket options"))
    ∷ (55, (lit "getsockopt", lit "Get current socket options"))
    ∷ (56, (lit "clone", lit "Create child process"))
    ∷ (57, (lit "fork", lit "Create child process"))
    ∷ (58, (lit "vfork", lit "Create child process without copying page tables of parent"))
    ∷ (59, (lit "execve", lit "Execute program"))
    ∷ (60, (lit "exit", lit "Terminate calling process"))
    ∷ (61, (lit "wait4", lit "Wait for process to change state"))
    ∷ (62, (lit "kill", lit "Send signal to process"))
    ∷ (63, (lit "uname", lit "Get kernel info"))
    ∷ (64, (lit "semget", lit ""))
    ∷ (65, (lit "semop", lit ""))
    ∷ (66, (lit "semctl", lit ""))
    ∷ (67, (lit "shmdt", lit ""))
    ∷ (68, (lit "msgget", lit ""))
    ∷ (69, (lit "msgsnd", lit ""))
    ∷ (70, (lit "msgrcv", lit ""))
    ∷ (71, (lit "msgctl", lit ""))
    ∷ (72, (lit "fcntl", lit "Manipulate fd"))
    ∷ (73, (lit "flock", lit ""))
    ∷ (74, (lit "fsync", lit "Sync file data/metadata in memory to disk. Flushes and completes IO"))
    ∷ (75, (lit "fdatasync", lit ""))
    ∷ (76, (lit "truncate", lit ""))
    ∷ (77, (lit "ftruncate", lit ""))
    ∷ (78, (lit "getdents", lit "Get directory entries"))
    ∷ (79, (lit "getcwd", lit "Get current working directory"))
    ∷ (80, (lit "chdir", lit "Change directory"))
    ∷ (81, (lit "fchdir", lit ""))
    ∷ (82, (lit "rename", lit ""))
    ∷ (83, (lit "mkdir", lit "Make directory"))
    ∷ (84, (lit "rmdir", lit ""))
    ∷ (85, (lit "creat", lit ""))
    ∷ (86, (lit "link", lit ""))
    ∷ (87, (lit "unlink", lit "Remove a file"))
    ∷ (88, (lit "symlink", lit "Create symlink"))
    ∷ (89, (lit "readlink", lit "Return name of symlink"))
    ∷ (90, (lit "chmod", lit "Set permissions on file/device"))
    ∷ (91, (lit "fchmod", lit "chmod but uses fd"))
    ∷ (92, (lit "chown", lit "Change file owner"))
    ∷ (93, (lit "fchown", lit "chown but uses fd"))
    ∷ (94, (lit "lchown", lit ""))
    ∷ (95, (lit "umask", lit "Set mask to create files"))
    ∷ (96, (lit "gettimeofday", lit ""))
    ∷ (97, (lit "getrlimit", lit ""))
    ∷ (98, (lit "getrusage", lit "Obtain resource usage"))
    ∷ (99, (lit "sysinfo", lit "Return system information"))
    ∷ (100, (lit "times", lit ""))
    ∷ (101, (lit "ptrace", lit ""))
    ∷ (102, (lit "getuid", lit "Get user ID of process"))
    ∷ (103, (lit "syslog", lit ""))
    ∷ (104, (lit "getgid", lit "Get group ID of process"))
    ∷ (105, (lit "setuid", lit "Set user ID of process"))
    ∷ (106, (lit "setgid", lit "Set group ID of process"))
    ∷ (107, (lit "geteuid", lit "Get effective UID of process"))
    ∷ (108, (lit "getegid", lit " Get effecitve GID of process"))
    ∷ (109, (lit "setpgid", lit ""))
    ∷ (110, (lit "getppid", lit "Get PID for a process"))
    ∷ (111, (lit "getpgrp", lit "Get process group ID of calling process"))
    ∷ (112, (lit "setsid", lit ""))
    ∷ (113, (lit "setreuid", lit ""))
    ∷ (114, (lit "setregid", lit ""))
    ∷ []
