-- ===== src/Trace/Table/Middle.antt =====
-- Entries 115 to 229 of `syscall_desc` (utility/parse_syscalls.py).
use wali_lib.Base.{ℕ, Str, lit, [], ◌∷◌}
use wali_lib.Base.Dict.{Dict}

unfoldable pub syscall_desc_middle : Dict ℕ (Str × Str)
unfolding lit
syscall_desc_middle =
    (115, (lit "getgroups", lit ""))
    ∷ (116, (lit "setgroups", lit ""))
    ∷ (117, (lit "setresuid", lit ""))
    ∷ (118, (lit "getresuid", lit ""))
    ∷ (119, (lit "setresgid", lit ""))
    ∷ (120, (lit "getresgid", lit ""))
    ∷ (121, (lit "getpgid", lit ""))
    ∷ (122, (lit "setfsuid", lit ""))
    ∷ (123, (lit "setfsgid", lit ""))
    ∷ (124, (lit "getsid", lit ""))
    ∷ (125, (lit "capget", lit ""))
    ∷ (126, (lit "capset", lit ""))
    ∷ (127, (lit "rt_sigpending", lit ""))
    ∷ (128, (lit "rt_sigtimedwait", lit ""))
    ∷ (129, (lit "rt_sigqueueinfo", lit ""))
    ∷ (130, (lit "rt_sigsuspend", lit "Wait for signal"))
    ∷ (131, (lit "sigaltstack", lit "Set/get signal stack context"))
    ∷ (132, (lit "utime", lit "Change last access and mod time of file"))
    ∷ (133, (lit "mknod", lit ""))
    ∷ (134, (lit "useli", lit ""))
    ∷ (135, (lit "personality", lit ""))
    ∷ (136, (lit "ustat", lit ""))
    ∷ (137, (lit "statfs", lit "Get filesystem stats"))
    ∷ (138, (lit "fstatfs", lit "statfs but uses fd"))
    ∷ (139, (lit "sysfs", lit ""))
    ∷ (140, (lit "getpriority", lit ""))
    ∷ (141, (lit "setpriority", lit ""))
    ∷ (142, (lit "sched_setparam", lit ""))
    ∷ (143, (lit "sched_getparam", lit ""))
    ∷ (144, (lit "sched_setscheduler", lit ""))
    ∷ (145, (lit "sched_getscheduler", lit ""))
    ∷ (146, (lit "sched_get_priority_max", lit ""))
    ∷ (147, (lit "sched_get_priority_min", lit ""))
    ∷ (148, (lit "sched_rr_get_interval", lit ""))
    ∷ (149, (lit "mlock", lit ""))
    ∷ (150, (lit "munlock", lit ""))
    ∷ (151, (lit "mlockall", lit ""))
    ∷ (152, (lit "munlockall", lit ""))
    ∷ (153, (lit "vhangup", lit ""))
    ∷ (154, (lit "modify_ldt", lit ""))
    ∷ (155, (lit "pivot_root", lit ""))
    ∷ (156, (lit "_sysctl", lit ""))
    ∷ (157, (lit "prctl", lit "Operations on process/thread"))
    ∷ (158, (lit "arch_prctl", lit "Set Architecture specific thread state"))
    ∷ (159, (lit "adjtimex", lit ""))
    ∷ (160, (lit "setrlimit", lit ""))
    ∷ (161, (lit "chroot", lit ""))
    ∷ (162, (lit "sync", lit ""))
    ∷ (163, (lit "acct", lit ""))
    ∷ (164, (lit "settimeofday", lit ""))
    ∷ (165, (lit "mount", lit ""))
    ∷ (166, (lit "umount2", lit ""))
    ∷ (167, (lit "swapon", lit ""))
    ∷ (168, (lit "swapoff", lit ""))
    ∷ (169, (lit "reboot", lit ""))
    ∷ (170, (lit "sethostname", lit ""))
    ∷ (171, (lit "setdomainname", lit ""))
    ∷ (172, (lit "iopl", lit ""))
    ∷ (173, (lit "ioperm", lit ""))
    ∷ (174, (lit "create_module", lit ""))
    ∷ (175, (lit "init_module", lit ""))
    ∷ (176, (lit "delete_module", lit ""))
    ∷ (177, (lit "get_kernel_syms", lit ""))
    ∷ (178, (lit "query_module", lit ""))
    ∷ (179, (lit "quotactl", lit ""))
    ∷ (180, (lit "nfsservctl", lit ""))
    ∷ (181, (lit "getpmsg", lit ""))
    ∷ (182, (lit "putpmsg", lit ""))
    ∷ (183, (lit "afs_syscall", lit ""))
    ∷ (184, (lit "tuxcall", lit ""))
    ∷ (185, (lit "security", lit ""))
    ∷ (186, (lit "gettid", lit "Get thread ID of calling process"))
    ∷ (187, (lit "readahead", lit ""))
    ∷ (188, (lit "setxattr", lit ""))
    ∷ (189, (lit "lsetxattr", lit ""))
    ∷ (190, (lit "fsetxattr", lit ""))
    ∷ (191, (lit "getxattr", lit ""))
    ∷ (192, (lit "lgetxattr", lit ""))
    ∷ (193, (lit "fgetxattr", lit ""))
    ∷ (194, (lit "listxattr", lit ""))
    ∷ (195, (lit "llistxattr", lit ""))
    ∷ (196, (lit "flistxattr", lit ""))
    ∷ (197, (lit "removexattr", lit ""))
    ∷ (198, (lit "lremovexattr", lit ""))
    ∷ (199, (lit "fremovexattr", lit ""))
    ∷ (200, (lit "tkill", lit ""))
    ∷ (201, (lit "time", lit ""))
    ∷ (202, (lit "futex", lit "Fast user-space mutex"))
    ∷ (203, (lit "sched_setaffinity", lit "Set CPU affinity mask"))
    ∷ (204, (lit "sched_getaffinity", lit "Get CPU affinity mask"))
    ∷ (205, (lit "set_thread_area", lit ""))
    ∷ (206, (lit "io_setup", lit ""))
    ∷ (207, (lit "io_destroy", lit ""))
    ∷ (208, (lit "io_getevents", lit ""))
    ∷ (209, (lit "io_submit", lit ""))
    ∷ (210, (lit "io_cancel", lit ""))
    ∷ (211, (lit "get_thread_area", lit ""))
    ∷ (212, (lit "lookup_dcookie", lit ""))
    ∷ (213, (lit "epoll_create", lit ""))
    ∷ (214, (lit "epoll_ctl_old", lit ""))
    ∷ (215, (lit "epoll_wait_old", lit ""))
    ∷ (216, (lit "remap_file_pages", lit ""))
    ∷ (217, (lit "getdents64", lit "Get directory entries"))
    ∷ (218, (lit "set_tid_address", lit "Set pointer to TID"))
    ∷ (219, (lit "restart_syscall", lit ""))
    ∷ (220, (lit "semtimedop", lit ""))
    ∷ (221, (lit "fadvise64", lit "Declare access pattern of I/O for optimization"))
    ∷ (222, (lit "timer_create", lit "Create POSIX per-process timer"))
    ∷ (223, (lit "timer_settime", lit "Arm/disarm timer"))
    ∷ (224, (lit "timer_gettime", lit "Get time until expiration"))
    ∷ (225, (lit "timer_getoverrun", lit "Get overrun count on timer"))
    ∷ (226, (lit "timer_delete", lit "Delete timer"))
    ∷ (227, (lit "clock_settime", lit "Set time from clock_id"))
    ∷ (228, (lit "clock_gettime", lit "Get time from clock_id"))
    ∷ (229, (lit "clock_getres", lit ""))
    ∷ []
