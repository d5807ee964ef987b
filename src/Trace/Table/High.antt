-- ===== src/Trace/Table/High.antt =====
-- Entries 230 to 334 of `syscall_desc` (utility/parse_syscalls.py).
use wali_lib.Base.{ℕ, Str, lit, [], ◌∷◌}
use wali_lib.Base.Dict.{Dict}

unfoldable pub syscall_desc_high : Dict ℕ (Str × Str)
unfolding lit
syscall_desc_high =
    (230, (lit "clock_nanosleep", lit "High res clock sleep"))
    ∷ (231, (lit "exit_group", lit ""))
    ∷ (232, (lit "epoll_wait", lit ""))
    ∷ (233, (lit "epoll_ctl", lit ""))
    ∷ (234, (lit "tgkill", lit ""))
    ∷ (235, (lit "utimes", lit ""))
    ∷ (236, (lit "vserver", lit ""))
    ∷ (237, (lit "mbind", lit ""))
    ∷ (238, (lit "set_mempolicy", lit "Set default NUMA memory policy for thread/children"))
    ∷ (239, (lit "get_mempolicy", lit "Get NUMA memory policy for thread/children"))
    ∷ (240, (lit "mq_open", lit ""))
    ∷ (241, (lit "mq_unlink", lit ""))
    ∷ (242, (lit "mq_timedsend", lit ""))
    ∷ (243, (lit "mq_timedreceive", lit ""))
    ∷ (244, (lit "mq_notify", lit ""))
    ∷ (245, (lit "mq_getsetattr", lit ""))
    ∷ (246, (lit "kexec_load", lit ""))
    ∷ (247, (lit "waitid", lit ""))
    ∷ (248, (lit "add_key", lit ""))
    ∷ (249, (lit "request_key", lit ""))
    ∷ (250, (lit "keyctl", lit ""))
    ∷ (251, (lit "ioprio_set", lit ""))
    ∷ (252, (lit "ioprio_get", lit ""))
    ∷ (253, (lit "inotify_init", lit ""))
    ∷ (254, (lit "inotify_add_watch", lit ""))
    ∷ (255, (lit "inotify_rm_watch", lit ""))
    ∷ (256, (lit "migrate_pages", lit ""))
    ∷ (257, (lit "openat", lit "Open file relative to directory fd"))
    ∷ (258, (lit "mkdirat", lit ""))
    ∷ (259, (lit "mknodat", lit ""))
    ∷ (260, (lit "fchownat", lit ""))
    ∷ (261, (lit "futimesat", lit ""))
    ∷ (262, (lit "newfstatat", lit "stat with relative directory path and cwd"))
    ∷ (263, (lit "unlinkat", lit "Delete name and possible file it references"))
    ∷ (264, (lit "renameat", lit ""))
    ∷ (265, (lit "linkat", lit ""))
    ∷ (266, (lit "symlinkat", lit ""))
    ∷ (267, (lit "readlinkat", lit ""))
    ∷ (268, (lit "fchmodat", lit ""))
    ∷ (269, (lit "faccessat", lit "Check user perms for file relative to dir"))
    ∷ (270, (lit "pselect6", lit ""))
    ∷ (271, (lit "ppoll", lit ""))
    ∷ (272, (lit "unshare", lit ""))
    ∷ (273, (lit "set_robust_list", lit "Set list of robust futexes"))
    ∷ (274, (lit "get_robust_list", lit "Get list of robust futexes"))
    ∷ (275, (lit "splice", lit ""))
    ∷ (276, (lit "tee", lit ""))
    ∷ (277, (lit "sync_file_range", lit ""))
    ∷ (278, (lit "vmsplice", lit ""))
    ∷ (279, (lit "move_pages", lit ""))
    ∷ (280, (lit "utimensat", lit "Change timestamp with NS precision"))
    ∷ (281, (lit "epoll_pwait", lit ""))
    ∷ (282, (lit "signalfd", lit ""))
    ∷ (283, (lit "timerfd_create", lit ""))
    ∷ (284, (lit "eventfd", lit "Create fd for event notification"))
    ∷ (285, (lit "fallocate", lit ""))
    ∷ (286, (lit "timerfd_settime", lit ""))
    ∷ (287, (lit "timerfd_gettime", lit ""))
    ∷ (288, (lit "accept4", lit ""))
    ∷ (289, (lit "signalfd4", lit ""))
    ∷ (290, (lit "eventfd2", lit "eventfd without flags"))
    ∷ (291, (lit "epoll_create1", lit ""))
    ∷ (292, (lit "dup3", lit ""))
    ∷ (293, (lit "pipe2", lit "Same as pipe"))
    ∷ (294, (lit "inotify_init1", lit ""))
    ∷ (295, (lit "preadv", lit ""))
    ∷ (296, (lit "pwritev", lit ""))
    ∷ (297, (lit "rt_tgsigqueueinfo", lit ""))
    ∷ (298, (lit "perf_event_open", lit ""))
    ∷ (299, (lit "recvmmsg", lit ""))
    ∷ (300, (lit "fanotify_init", lit ""))
    ∷ (301, (lit "fanotify_mark", lit ""))
    ∷ (302, (lit "prlimit64", lit "Set and get resource limit"))
    ∷ (303, (lit "name_to_handle_at", lit ""))
    ∷ (304, (lit "open_by_handle_at", lit ""))
    ∷ (305, (lit "clock_adjtime", lit ""))
    ∷ (306, (lit "syncfs", lit ""))
    ∷ (307, (lit "sendmmsg", lit "Send multiple messages via socket"))
    ∷ (308, (lit "setns", lit ""))
    ∷ (309, (lit "getcpu", lit ""))
    ∷ (310, (lit "process_vm_readv", lit ""))
    ∷ (311, (lit "process_vm_writev", lit ""))
    ∷ (312, (lit "kcmp", lit ""))
    ∷ (313, (lit "finit_module", lit ""))
    ∷ (314, (lit "sched_setattr", lit "Set scheduling attributes"))
    ∷ (315, (lit "sched_getattr", lit "Get scheduling attributes"))
    ∷ (316, (lit "renameat2", lit ""))
    ∷ (317, (lit "seccomp", lit ""))
    ∷ (318, (lit "getrandom", lit "Get series of random bytes"))
    ∷ (319, (lit "memfd_create", lit ""))
    ∷ (320, (lit "kexec_file_load", lit ""))
    ∷ (321, (lit "bpf", lit ""))
    ∷ (322, (lit "execveat", lit ""))
    ∷ (323, (lit "userfaultfd", lit ""))
    ∷ (324, (lit "membarrier", lit ""))
    ∷ (325, (lit "mlock2", lit ""))
    ∷ (326, (lit "copy_file_range", lit ""))
    ∷ (327, (lit "preadv2", lit ""))
    ∷ (328, (lit "pwritev2", lit ""))
    ∷ (329, (lit "pkey_mprotect", lit ""))
    ∷ (330, (lit "pkey_alloc", lit ""))
    ∷ (331, (lit "pkey_free", lit ""))
    ∷ (332, (lit "statx", lit ""))
    ∷ (333, (lit "io_pgetevents", lit ""))
    ∷ (334, (lit "rseq", lit ""))
    ∷ []
